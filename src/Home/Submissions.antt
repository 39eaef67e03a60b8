-- ===== src/Home/Submissions.antt =====
-- The ways of a submission through the handler of pages/home.rs.
use crackstation_rust.Base.{
  ℕ, ◌≤◌, ◌<◌, Bool, true, false, Option, none, some, List, [], ◌∷◌, map, Text, ltb, is_empty,
  length, Bool-cases, Option-cases, ◌≡◌, ◌⊎◌, inl, inr, refl, arith,
}
use crackstation_rust.Cracking.Results.{CrackResult}
use crackstation_rust.Cracking.Display.{Codec}
use crackstation_rust.Cracking.Oracle.{
  HashResult, CrackWithLimit, crack_hashes, max_matches_per_hash,
}
use crackstation_rust.Cracking.Lookups.{KeepsContract, AllReport, total_rows, crack_hashes-IsHonest}
use crackstation_rust.Captcha.{Chunks, Answer}
use crackstation_rust.Home.{
  parse_hashes, HomePage, plain_page, error_page, incorrect_captcha, unverified_captcha,
  too_many_hashes, Context, is_captcha_bypassed, refusal, submit, unless_refused, hashes_field,
  verified, check_captcha, post,
}

-- The ways of a text behind the captcha. The oracle is asked for 1 to 20 hashes, the page has one
-- result for each of them, in order, and no more than 420 rows; `none` is the panic on a failed
-- lookup.
pub data Submitted (codec : Codec) (oracle : CrackWithLimit) (raw : Text)
    : Option HomePage → Type 0 where
  too_many :
      20 < length (parse_hashes raw)
      → Submitted codec oracle raw (some (error_page raw too_many_hashes))
  blank : parse_hashes raw ≡ [] → Submitted codec oracle raw (some (plain_page raw))
  cracked :
      (answers : List HashResult) (results : List CrackResult)
      → 1 ≤ length (parse_hashes raw)
      → length (parse_hashes raw) ≤ 20
      → oracle (parse_hashes raw) true 20 ≡ some answers
      → crack_hashes codec oracle (parse_hashes raw) ≡ some results
      → map (λ r. r.hash) results ≡ parse_hashes raw
      → AllReport answers results
      → total_rows results ≤ 420
      → Submitted codec oracle raw (some (record (plain_page raw) { results = some results }))
  failed :
      1 ≤ length (parse_hashes raw)
      → length (parse_hashes raw) ≤ 20
      → oracle (parse_hashes raw) true max_matches_per_hash ≡ none
      → Submitted codec oracle raw none

pub crack_hashes-none :
    (codec : Codec) (oracle : CrackWithLimit) (hashes : List Text)
    → crack_hashes codec oracle hashes ≡ none
    → oracle hashes true max_matches_per_hash ≡ none
unfolding crack_hashes
crack_hashes-none codec oracle hashes e =
    elim (Option-cases (oracle hashes true max_matches_per_hash)) [
      | inl fails ↦ fails
      | inr (rs, found) ↦ cc (rw found at e)
    ]

pub is_empty-length {ℓ} : {A : Type ℓ} (xs : List A) → is_empty xs ≡ false → 1 ≤ length xs
is_empty-length [] h = cc
is_empty-length (x ∷ xs) h = omega arith

is_empty-nil {ℓ} : {A : Type ℓ} (xs : List A) → is_empty xs ≡ true → xs ≡ []
is_empty-nil [] h = refl
is_empty-nil (x ∷ xs) h = cc

Submitted-submit :
    (codec : Codec) (oracle : CrackWithLimit) (raw : Text)
    → KeepsContract oracle
    → Submitted codec oracle raw (submit codec oracle raw)
unfolding submit
Submitted-submit codec oracle raw keeps = elim (Bool-cases (ltb 20 (length (parse_hashes raw)))) [
  | inl many ↦ rw many (too_many (ground arith))
  | inr few ↦ elim (Bool-cases (is_empty (parse_hashes raw))) [
    | inl nothing ↦ rw (few, nothing) (blank (is_empty-nil (parse_hashes raw) nothing))
    | inr given ↦
        let one = is_empty-length (parse_hashes raw) given in
        let small : length (parse_hashes raw) ≤ 20 = ground arith in
        elim (Option-cases (crack_hashes codec oracle (parse_hashes raw))) [
          | inl fails ↦
              rw (few, given, fails)
                (failed one small (crack_hashes-none codec oracle (parse_hashes raw) fails))
          | inr (results, found) ↦
              let (answers, asked, same, report, rows) =
                crack_hashes-IsHonest codec oracle (parse_hashes raw) keeps found in
              rw (few, given, found)
                (cracked answers results one small asked found same report
                  (omega (arith, rows, small)))
        ]
  ]
]

module _ (parse_form : Text → List (Text × Text)) (sha256_hex : Text → Text)
    (send : Text → Text → Text → Option Chunks) (parse_json : List ℕ → Option Answer) where
  abbrev pub bypassed : Context → Bool
  bypassed ctx = is_captcha_bypassed sha256_hex ctx.captcha_bypass_header

  abbrev pub raw_of : Text → Text
  raw_of = hashes_field parse_form sha256_hex send parse_json

  abbrev pub verdict_of : Context → Text → Option Bool
  verdict_of = verified parse_form sha256_hex send parse_json

  -- The ways of a POST: with a captcha that is not passed, no lookup is made.
  pub data Posted (codec : Codec) (oracle : CrackWithLimit) (ctx : Context) (body : Text)
      : Option HomePage → Type 0 where
    unsolved :
        bypassed ctx ≡ false
        → verdict_of ctx body ≡ some false
        → Posted codec oracle ctx body (some (error_page (raw_of body) incorrect_captcha))
    unverified :
        bypassed ctx ≡ false
        → verdict_of ctx body ≡ none
        → Posted codec oracle ctx body (some (error_page (raw_of body) unverified_captcha))
    passed :
        {page : Option HomePage}
        → (bypassed ctx ≡ true) ⊎ (verdict_of ctx body ≡ some true)
        → Submitted codec oracle (raw_of body) page
        → Posted codec oracle ctx body page

  Posted-verdict :
      (codec : Codec) (oracle : CrackWithLimit) (ctx : Context) (body : Text)
      (verdict : Option Bool)
      → KeepsContract oracle
      → bypassed ctx ≡ false
      → verdict_of ctx body ≡ verdict
      → Posted codec oracle ctx body
          (unless_refused (refusal verdict) (raw_of body) (submit codec oracle (raw_of body)))
  unfolding unless_refused refusal
  Posted-verdict codec oracle ctx body none keeps b e = unverified b e
  Posted-verdict codec oracle ctx body (some false) keeps b e = unsolved b e
  Posted-verdict codec oracle ctx body (some true) keeps b e =
      passed (inr e) (Submitted-submit codec oracle (raw_of body) keeps)

  -- Over an oracle that keeps its contract, each POST to the form takes one of these ways: the
  -- captcha fails or cannot be verified, and the page shows that error and nothing else; or it is
  -- bypassed or solved, and then more than 20 hashes are refused, none give the bare form, and 1 to
  -- 20 are looked up, and each result reports the oracle's answer, in order, in a table of at
  -- most 420 rows with those of truncation, unless the lookup fails and the request panics.
  pub Posted-post :
      (codec : Codec) (oracle : CrackWithLimit) (ctx : Context) (body : Text)
      → KeepsContract oracle
      → Posted codec oracle ctx body
          (post parse_form sha256_hex send parse_json codec oracle ctx body)
  unfolding post check_captcha
  Posted-post codec oracle ctx body keeps = elim (Bool-cases (bypassed ctx)) [
    | inl granted ↦ rw granted (
        unfold unless_refused in
        passed (inl granted) (Submitted-submit codec oracle (raw_of body) keeps))
    | inr closed ↦ rw closed (Posted-verdict codec oracle ctx body _ keeps closed refl)
  ]
