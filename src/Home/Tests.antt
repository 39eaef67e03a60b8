-- ===== src/Home/Tests.antt =====
-- Runs of pages/home.rs.
use crackstation_rust.Base.{
  ℕ, Text, Option, List, codes, some, none, [], ◌∷◌, ◌≡◌, refl, true, false, not, keep, map,
  is_empty, split, trim, arith,
}
use crackstation_rust.Captcha.{Chunks, Answer}
use crackstation_rust.Fixtures.{plain_codec, blind_oracle, blind_oracle-KeepsContract}
use crackstation_rust.Home.{replace_crlf, replace_cr, clean, parse_hashes, Context, post}
use crackstation_rust.Home.Lines.{last, crlf, parse_hashes_lem}
use crackstation_rust.Home.Submissions.{Posted, Posted-post}

mixed_lines : parse_hashes (codes "*abc*\r\n\r def \n\n*") ≡ codes "abc" ∷ codes "def" ∷ []
unfolding parse_hashes replace_crlf replace_cr split trim
mixed_lines = refl

parse_hashes_lem_example :
    parse_hashes (codes "*abc*\r\n def")
    ≡ keep (λ h. not (is_empty h)) (map clean (codes "*abc*" ∷ codes " def" ∷ []))
parse_hashes_lem_example =
    parse_hashes_lem (codes "*abc*\r\n def") (codes "*abc*" ∷ codes " def" ∷ [])
      (crlf (codes "*abc*") (omega arith) (last (codes " def") (omega arith)))

abbrev one_hash : Text → List (Text × Text)
one_hash body = (codes "hashes", body) ∷ (codes "g-recaptcha-response", codes "token") ∷ []

abbrev digest : Text → Text
digest s = s

abbrev google : Text → Text → Text → Option Chunks
google secret token ip = some (some (codes "{}") ∷ [])

abbrev solved : List ℕ → Option Answer
solved bytes = some (record { success = some true; hostname = some (codes "crackstation.net") })

abbrev visitor : Context
visitor = record {
  client_ip = codes "0.0.0.7";
  captcha_bypass_header = none;
  recaptcha_secret_key = some (codes "secret");
  serves_test_site_key = false;
}

Posted-post_example :
    Posted one_hash digest google solved plain_codec blind_oracle visitor
      (codes "abc")
      (post one_hash digest google solved plain_codec blind_oracle visitor (codes "abc"))
Posted-post_example =
    Posted-post one_hash digest google solved plain_codec blind_oracle visitor (codes "abc")
      blind_oracle-KeepsContract
