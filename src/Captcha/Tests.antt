-- ===== src/Captcha/Tests.antt =====
-- Runs of libs/recaptcha.rs and of the checks at startup.
use crackstation_rust.Base.{
  ℕ, ◌≤◌, Text, Option, List, codes, some, none, [], ◌∷◌, ◌≡◌, ◌↔◌, refl, false, true, trim, length,
}
use crackstation_rust.Captcha.{
  parse_dev_recaptcha_flag, max_response_bytes, is_plausible_token, Chunks, read_bounded, Answer,
  verify,
}
use crackstation_rust.Captcha.Reading.{Arrives, read_bounded_iff}
use crackstation_rust.Captcha.Verification.{IsSolved, verify_iff}

flag_spellings : parse_dev_recaptcha_flag (some (codes " TRUE ")) ≡ some true
unfolding parse_dev_recaptcha_flag trim
flag_spellings = refl

flag_unclear : parse_dev_recaptcha_flag (some (codes "maybe")) ≡ none
unfolding parse_dev_recaptcha_flag trim
flag_unclear = refl

abbrev chunks : Chunks
chunks = some (codes "{\"success\":") ∷ some (codes "true}") ∷ []

read_bounded_iff_example : (read_bounded chunks ≡ some (codes "{\"success\":true}")) ↔ (
    Arrives chunks (codes "{\"success\":true}")
    × (length (codes "{\"success\":true}") ≤ max_response_bytes))
read_bounded_iff_example = read_bounded_iff chunks (codes "{\"success\":true}")

abbrev google : Text → Text → Text → Option Chunks
google secret token ip = some chunks

abbrev parsed : List ℕ → Option Answer
parsed bytes = some (record { success = some true; hostname = some (codes "crackstation.net") })

verify_iff_example :
    (verify google parsed (some (codes "secret")) (codes "token") (codes "0.0.0.7") false
      ≡ some true)
    ↔ ((is_plausible_token (codes "token") ≡ true)
        × ((secret : Text) × (some (codes "secret") ≡ some secret)
            × IsSolved google parsed secret (codes "token") (codes "0.0.0.7") false))
verify_iff_example =
    verify_iff google parsed (some (codes "secret")) (codes "token") (codes "0.0.0.7") false
