-- ===== src/Cracking/Lookups.antt =====
-- `crack_hashes` (cracking.rs) over an oracle that keeps its contract.
use crackstation_rust.Base.{
  ℕ, ◌+◌, ◌*◌, ◌≤◌, ◌<◌, Bool, true, false, Option, none, some, List, [], ◌∷◌, ◌++◌, map, Text,
  length, is_empty, if◌then◌else◌, Option-cases, ◌≡◌, ◌↔◌, refl, arith, inl, inr,
}
use crackstation_rust.Cracking.Results.{
  CrackResult, is_full_match, matched_prefix, unmatched_rest, hidden_matches, is_truncated,
}
use crackstation_rust.Cracking.Display.{Codec, near_miss_new}
use crackstation_rust.Cracking.NearMisses.{near_miss_new_lem}
use crackstation_rust.Cracking.Oracle.{
  LookupMatch, HashResult, invalid_format, lookup, CrackWithLimit, max_matches_per_hash,
  crack_match, crack_result, crack_hashes,
}

-- One result for one submitted hash: no more matches than the limit, and the true count of them.
abbrev pub Fits : ℕ → Text → HashResult → Type 0
Fits limit hash (invalid_format input) = input ≡ hash
Fits limit hash (lookup queried matches total) =
    (queried ≡ hash) × (length matches ≤ limit) × (length matches ≤ total)

abbrev pub AllFit : ℕ → List Text → List HashResult → Type 0
AllFit limit [] [] = Unit
AllFit limit (h ∷ hs) (r ∷ rs) = Fits limit h r × AllFit limit hs rs
AllFit limit _ _ = ⊥

-- An answer, unless it is an error, has one result for each hash, in the order of the hashes.
abbrev pub AnswerFits : ℕ → List Text → Option (List HashResult) → Type 0
AnswerFits limit hashes none = Unit
AnswerFits limit hashes (some results) = AllFit limit hashes results

-- The contract of `crack_with_limit`.
abbrev pub KeepsContract : CrackWithLimit → Type 0
KeepsContract oracle =
    (hashes : List Text) (early : Bool) (limit : ℕ)
    → AnswerFits limit hashes (oracle hashes early limit)

-- The rows that templates/pages/home.html writes for a result: the one that says why there is no
-- match; or the matches, and the one that says how many are not shown.
abbrev pub rows_of : CrackResult → ℕ
rows_of r =
    if r.format_error
    then 1
    else if is_empty r.matches
    then 1
    else length r.matches + (if is_truncated r then 1 else 0)

abbrev pub total_rows : List CrackResult → ℕ
total_rows [] = 0
total_rows (r ∷ rs) = rows_of r + total_rows rs

-- What a result says of the oracle's answer: its hash; the matches, by their algorithms and by which
-- of them are exact, in order; and the true count, of which the hidden ones are those not answered.
abbrev pub Reports : HashResult → CrackResult → Type 0
Reports (invalid_format input) r =
    (r.hash ≡ input) × (r.format_error ≡ true) × (r.matches ≡ []) × (r.total_matches ≡ 0)
Reports (lookup queried matches total) r =
    (r.hash ≡ queried)
    × (r.format_error ≡ false)
    × (map (λ m. m.algorithm_name) r.matches ≡ map (λ m. m.algorithm_name) matches)
    × (map is_full_match r.matches ≡ map (λ m. m.is_full) matches)
    × (r.total_matches ≡ total)
    × (hidden_matches r + length matches ≡ total)
    × ((is_truncated r ≡ true) ↔ (length matches < total))

abbrev pub AllReport : List HashResult → List CrackResult → Type 0
AllReport [] [] = Unit
AllReport (a ∷ answers) (r ∷ rs) = Reports a r × AllReport answers rs
AllReport _ _ = ⊥

length-map {ℓ κ} :
    {A : Type ℓ} {B : Type κ} (f : A → B) (xs : List A) → length (map f xs) ≡ length xs
length-map f [] = refl
length-map f (x ∷ xs) = rw (length-map f xs)

names_of :
    (codec : Codec) (q : Text) (ms : List LookupMatch)
    → map (λ m. m.algorithm_name) (map (crack_match codec q) ms) ≡ map (λ m. m.algorithm_name) ms
unfolding crack_match
names_of codec q [] = refl
names_of codec q (m ∷ ms) = rw (names_of codec q ms) refl

exact_of :
    (codec : Codec) (q : Text) (ms : List LookupMatch)
    → map is_full_match (map (crack_match codec q) ms) ≡ map (λ m. m.is_full) ms
unfolding crack_match is_full_match
exact_of codec q [] = refl
exact_of codec q (m ∷ ms) = ground (arith, exact_of codec q ms)

crack_result-Reports :
    (codec : Codec) (h : Text) (a : HashResult)
    → Fits 20 h a
    → ((crack_result codec a).hash ≡ h) × Reports a (crack_result codec a)
unfolding crack_result hidden_matches is_truncated
crack_result-Reports codec h (invalid_format input) e = (e, (refl, refl, refl, refl))
crack_result-Reports codec h (lookup q ms total) (e, small, few) =
    let same = length-map (crack_match codec q) ms in
    (
      e,
      (
        refl,
        refl,
        names_of codec q ms,
        exact_of codec q ms,
        refl,
        rw same (omega (arith, few)),
        rw same (ground arith),
      ),
    )

rows_of-le :
    (codec : Codec) (h : Text) (a : HashResult) → Fits 20 h a → rows_of (crack_result codec a) ≤ 21
unfolding crack_result hidden_matches is_truncated
rows_of-le codec h (invalid_format input) e = ground arith
rows_of-le codec h (lookup q ms total) (e, small, few) =
    ground (arith, small, length-map (crack_match codec q) ms)

results-Report :
    (codec : Codec) (hs : List Text) (answers : List HashResult)
    → AllFit 20 hs answers
    → (map (λ r. r.hash) (map (crack_result codec) answers) ≡ hs)
      × AllReport answers (map (crack_result codec) answers)
      × (total_rows (map (crack_result codec) answers) ≤ 21 * length hs)
results-Report codec [] [] h = (refl, tt, omega arith)
results-Report codec [] (a ∷ answers) h = absurd h
results-Report codec (x ∷ hs) [] h = absurd h
results-Report codec (x ∷ hs) (a ∷ answers) (h, k) =
    let (same, reports) = crack_result-Reports codec x a h in
    let (all_same, all_report, bound) = results-Report codec hs answers k in
    (
      ground (arith, same, all_same),
      (reports, all_report),
      omega (arith, rows_of-le codec x a h, bound),
    )

pub crack_hashes-IsHonest :
    (codec : Codec) (oracle : CrackWithLimit) (hashes : List Text) {results : List CrackResult}
    → KeepsContract oracle
    → crack_hashes codec oracle hashes ≡ some results
    → (answers : List HashResult) × (oracle hashes true 20 ≡ some answers)
      × (map (λ r. r.hash) results ≡ hashes)
      × AllReport answers results
      × (total_rows results ≤ 21 * length hashes)
unfolding crack_hashes
crack_hashes-IsHonest codec oracle hashes {results} keeps e =
    elim (Option-cases (oracle hashes true max_matches_per_hash)) [
      | inl fails ↦ absurd (ground arith)
      | inr (answers, found) ↦
          let same : map (crack_result codec) answers ≡ results = ground arith in
          let (hashes_same, report, bound) =
            results-Report codec hashes answers (rw found at (keeps hashes true 20)) in
          rw (← same) (answers, found, hashes_same, report, bound)
    ]

-- A match that the oracle does not call exact is shown as a near miss: the template's two calls do
-- not panic, and what they give is the digest of the word.
pub crack_match_lem :
    (codec : Codec) (queried : Text) (lm : LookupMatch)
    → lm.is_full ≡ false
    → (is_full_match (crack_match codec queried lm) ≡ false)
      × ((m r : Text) × (matched_prefix (crack_match codec queried lm) ≡ some m)
          × (unmatched_rest (crack_match codec queried lm) ≡ some r)
          × (m ++ r ≡ codec.hex_encode lm.recomputed_hash))
unfolding crack_match is_full_match matched_prefix unmatched_rest
crack_match_lem codec q lm h =
    let digest = codec.hex_encode lm.recomputed_hash in
    let near = near_miss_new q digest in
    (
      ground arith,
      (near.matched, near.rest, ground arith, ground arith, (near_miss_new_lem q digest).0),
    )
