-- ===== src/Cracking/Summary.antt =====
-- `ResultSummary` (cracking.rs): every hash is counted in one bucket.
use crackstation_rust.Base.{
  ℕ, ◌+◌, Bool, true, false, List, [], ◌∷◌, any, length, is_empty, keep, ◌≡◌, refl, arith,
  if◌then◌else◌,
}
use crackstation_rust.Cracking.Results.{
  CrackResult, ResultSummary, is_full_match, tally, tally_all, summary_of, is_exhaustive,
}

-- The rows that the results table shows for a result.
pub data Row : Type 0 where
  invalid not_found cracked partial : Row

-- The kind of row, by what is in the result.
pub row : CrackResult → Row
row r =
    if r.format_error
    then invalid
    else if any is_full_match r.matches
    then cracked
    else if is_empty r.matches
    then not_found
    else partial

abbrev row_eq : Row → Row → Bool
row_eq invalid invalid = true
row_eq not_found not_found = true
row_eq cracked cracked = true
row_eq partial partial = true
row_eq _ _ = false

pub rows : Row → List CrackResult → ℕ
rows k rs = length (keep (λ r. row_eq k (row r)) rs)

abbrev Counts : ResultSummary → ResultSummary → List CrackResult → Type 0
Counts s t rs =
    (t.hashes ≡ s.hashes)
    × (t.cracked ≡ s.cracked + rows cracked rs)
    × (t.partial ≡ s.partial + rows partial rs)
    × (t.not_found ≡ s.not_found + rows not_found rs)
    × (t.invalid ≡ s.invalid + rows invalid rs)

tally-Counts : (s : ResultSummary) (r : CrackResult) → Counts s (tally s r) (r ∷ [])
unfolding tally rows row
tally-Counts s r = ground arith

rows-cons :
    (k : Row) (r : CrackResult) (rs : List CrackResult)
    → rows k (r ∷ rs) ≡ rows k (r ∷ []) + rows k rs
unfolding rows
rows-cons k r rs = ground arith

tally_all-Counts : (s : ResultSummary) (rs : List CrackResult) → Counts s (tally_all s rs) rs
unfolding tally_all
tally_all-Counts s [] = unfold rows in omega arith
tally_all-Counts s (r ∷ rs) = omega (
  arith,
  tally-Counts s r,
  tally_all-Counts (tally s r) rs,
  rows-cons cracked r rs,
  rows-cons partial r rs,
  rows-cons not_found r rs,
  rows-cons invalid r rs,
)

rows-total :
    (rs : List CrackResult)
    → rows cracked rs + rows partial rs + rows not_found rs + rows invalid rs ≡ length rs
unfolding rows
rows-total [] = refl
rows-total (r ∷ rs) = ground (arith, rows-total rs)

-- Each count of the summary is the number of results whose row in the table is of that kind.
pub summary_of-rows :
    (rs : List CrackResult)
    → ((summary_of rs).hashes ≡ length rs)
      × ((summary_of rs).cracked ≡ rows cracked rs)
      × ((summary_of rs).partial ≡ rows partial rs)
      × ((summary_of rs).not_found ≡ rows not_found rs)
      × ((summary_of rs).invalid ≡ rows invalid rs)
unfolding summary_of
summary_of-rows rs =
    let start : ResultSummary = record {
      hashes = length rs;
      cracked = 0;
      partial = 0;
      not_found = 0;
      invalid = 0;
    } in
    omega (arith, tally_all-Counts start rs)

-- The four buckets account for every hash: the debug assertion of `of` holds.
pub is_exhaustive-summary_of : (rs : List CrackResult) → is_exhaustive (summary_of rs) ≡ true
unfolding is_exhaustive
is_exhaustive-summary_of rs = ground (arith, summary_of-rows rs, rows-total rs)
