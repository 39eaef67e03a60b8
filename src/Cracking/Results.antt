-- ===== src/Cracking/Results.antt =====
-- The result types of src/cracking.rs, their counts and the summary line.
use crackstation_rust.Base.{
  ℕ, ◌+◌, ◌-◌, Bool, not, Option, none, some, List, [], ◌∷◌, Text, ◌==◌, ltb, any, length, is_empty,
  is_some, if◌then◌else◌,
}
use crackstation_rust.Util.{group_digits}

pub record NearMiss : Type 0 where
  pub matched : Text
  pub rest : Text

pub record CrackMatch : Type 0 where
  pub plaintext : Text
  pub algorithm_name : Text
  pub near_miss : Option NearMiss

pub record CrackResult : Type 0 where
  pub hash : Text
  pub matches : List CrackMatch
  pub total_matches : ℕ
  pub format_error : Bool

unfoldable pub is_full_match : CrackMatch → Bool
is_full_match m = not (is_some m.near_miss)

-- `expect` on the near miss: `none` is the panic on a full match.
abbrev matched_of : Option NearMiss → Option Text
matched_of none = none
matched_of (some near) = some near.matched

abbrev rest_of : Option NearMiss → Option Text
rest_of none = none
rest_of (some near) = some near.rest

unfoldable pub matched_prefix : CrackMatch → Option Text
matched_prefix m = matched_of m.near_miss

unfoldable pub unmatched_rest : CrackMatch → Option Text
unmatched_rest m = rest_of m.near_miss

-- `saturating_sub` is the subtraction that stops at 0.
unfoldable pub hidden_matches : CrackResult → ℕ
hidden_matches r = r.total_matches - length r.matches

unfoldable pub hidden_matches_grouped : CrackResult → Text
unfolding hidden_matches
hidden_matches_grouped r = group_digits (hidden_matches r)

unfoldable pub total_matches_grouped : CrackResult → Text
total_matches_grouped r = group_digits r.total_matches

unfoldable pub is_truncated : CrackResult → Bool
unfolding hidden_matches
is_truncated r = ltb 0 (hidden_matches r)

pub record ResultSummary : Type 0 where
  pub hashes : ℕ
  pub cracked : ℕ
  pub partial : ℕ
  pub not_found : ℕ
  pub invalid : ℕ

-- One round of the loop of `ResultSummary::of`.
unfoldable pub tally : ResultSummary → CrackResult → ResultSummary
tally s r =
    if r.format_error
    then record s { invalid = s.invalid + 1 }
    else if is_empty r.matches
    then record s { not_found = s.not_found + 1 }
    else if any is_full_match r.matches
    then record s { cracked = s.cracked + 1 }
    else record s { partial = s.partial + 1 }

unfoldable pub tally_all : ResultSummary → List CrackResult → ResultSummary
unfolding tally
tally_all s [] = s
tally_all s (r ∷ rs) = tally_all (tally s r) rs

-- `ResultSummary::of`.
unfoldable pub summary_of : List CrackResult → ResultSummary
unfolding tally_all
summary_of results =
    tally_all
      (record { hashes = length results; cracked = 0; partial = 0; not_found = 0; invalid = 0 })
      results

unfoldable pub is_exhaustive : ResultSummary → Bool
is_exhaustive s = s.cracked + s.partial + s.not_found + s.invalid == s.hashes
