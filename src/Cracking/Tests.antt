-- ===== src/Cracking/Tests.antt =====
-- Runs of cracking.rs.
use crackstation_rust.Base.{
  ℕ, ltb, if◌then◌else◌, some, ◌≤◌, false, none, some, List, [], ◌∷◌, ◌++◌, map, Text, codes,
  length, take, drop, ascii_lower, All, ◌≡◌,
}
use crackstation_rust.HtmlEscape.TabStops.{expanded}
use crackstation_rust.HtmlEscape.Tokens.Decode.{decode, IsHarmless}
use crackstation_rust.HtmlEscape.Tokens.Shown.{IsShown}
use crackstation_rust.Fixtures.{plain_codec, refusals}
use crackstation_rust.Cracking.Results.{CrackMatch, CrackResult, summary_of}
use crackstation_rust.Cracking.Display.{near_miss_new, plaintext_html}
use crackstation_rust.Cracking.Oracle.{
  LookupMatch, HashResult, lookup, CrackWithLimit, crack_result,
}
use crackstation_rust.Cracking.Summary.{rows, cracked, partial, not_found, invalid, summary_of-rows}
use crackstation_rust.Cracking.Plaintext.{NoEnd, plaintext_html_lem}
use crackstation_rust.Cracking.NearMisses.{Diverge, near_miss_new_lem}

abbrev submitted : List Text
submitted = codes "xyz" ∷ codes "5f4d" ∷ []

abbrev shown : List CrackResult
shown = map (crack_result plain_codec) (refusals submitted)

abbrev near : LookupMatch
near = record {
  plaintext = codes "monkey";
  algorithm_name = codes "md5";
  is_full = false;
  recomputed_hash = codes "d0763edb";
}

-- An oracle that finds three words for every hash, and answers one of them at most.
abbrev answers_for : ℕ → List Text → List HashResult
answers_for limit hs = map (λ h. lookup h (if ltb 0 limit then near ∷ [] else []) 3) hs

abbrev generous_oracle : CrackWithLimit
generous_oracle hashes early limit = some (answers_for limit hashes)

abbrev found : List CrackResult
found = map (crack_result plain_codec) (answers_for 20 submitted)

near_miss_new_lem_example :
    let found = near_miss_new (codes "D0763eff") (codes "d0763edb") in
    let n = length found.matched in
    (found.matched ++ found.rest ≡ codes "d0763edb")
    × (map ascii_lower found.matched ≡ map ascii_lower (take n (codes "D0763eff")))
    × (n ≤ length (codes "D0763eff"))
    × Diverge (drop n (codes "D0763eff")) found.rest
near_miss_new_lem_example = near_miss_new_lem (codes "D0763eff") (codes "d0763edb")

abbrev padded : CrackMatch
padded = record { plaintext = codes " a\t<b "; algorithm_name = codes "md5"; near_miss = none }

plaintext_html_lem_example :
    (out : Text) × (plaintext_html padded ≡ some out)
    × (decode out ≡ expanded 8 0 (codes " a\t<b "))
    × All IsHarmless out
    × IsShown out
    × NoEnd out
plaintext_html_lem_example = plaintext_html_lem padded

summary_of-rows_example :
    ((summary_of shown).hashes ≡ length shown)
    × ((summary_of shown).cracked ≡ rows cracked shown)
    × ((summary_of shown).partial ≡ rows partial shown)
    × ((summary_of shown).not_found ≡ rows not_found shown)
    × ((summary_of shown).invalid ≡ rows invalid shown)
summary_of-rows_example = summary_of-rows shown
