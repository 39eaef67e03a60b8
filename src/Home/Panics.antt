-- ===== src/Home/Panics.antt =====
-- When a submission of src/pages/home.rs panics.
use crackstation_rust.Base.{
  ℕ, true, Option, none, some, List, Text, ltb, length, is_empty, Bool-cases, Option-cases, inl,
  inr, ◌≡◌,
}
use crackstation_rust.Cracking.Display.{Codec}
use crackstation_rust.Cracking.Oracle.{CrackWithLimit, max_matches_per_hash, crack_hashes}
use crackstation_rust.Captcha.{Chunks, Answer}
use crackstation_rust.Home.{
  Context, parse_hashes, submit, unless_refused, check_captcha, hashes_field, post,
}
use crackstation_rust.Home.Submissions.{crack_hashes-none}

-- The lookup of the hashes in a text fails.
abbrev pub FailsOn : CrackWithLimit → Text → Type 0
FailsOn oracle raw = oracle (parse_hashes raw) true max_matches_per_hash ≡ none

submit-none :
    (codec : Codec) (oracle : CrackWithLimit) (raw : Text)
    → submit codec oracle raw ≡ none
    → FailsOn oracle raw
unfolding submit
submit-none codec oracle raw e = elim (Bool-cases (ltb 20 (length (parse_hashes raw)))) [
  | inl many ↦ cc (rw many at e)
  | inr few ↦ elim (Bool-cases (is_empty (parse_hashes raw))) [
    | inl nothing ↦ cc (rw (few, nothing) at e)
    | inr given ↦ elim (Option-cases (crack_hashes codec oracle (parse_hashes raw))) [
      | inl fails ↦ crack_hashes-none codec oracle (parse_hashes raw) fails
      | inr (results, found) ↦ cc (rw (few, given, found) at e)
    ]
  ]
]

unless_refused-none :
    (codec : Codec) (oracle : CrackWithLimit) (raw : Text) (refused : Option Text)
    → unless_refused refused raw (submit codec oracle raw) ≡ none
    → FailsOn oracle raw
unfolding unless_refused
unless_refused-none codec oracle raw none e = submit-none codec oracle raw e
unless_refused-none codec oracle raw (some error) e = cc

module _ (parse_form : Text → List (Text × Text)) (sha256_hex : Text → Text)
    (send : Text → Text → Text → Option Chunks) (parse_json : List ℕ → Option Answer) where
  pub post-none :
      (codec : Codec) (oracle : CrackWithLimit) (ctx : Context) (body : Text)
      → post parse_form sha256_hex send parse_json codec oracle ctx body ≡ none
      → FailsOn oracle (hashes_field parse_form sha256_hex send parse_json body)
  unfolding post
  post-none codec oracle ctx body e =
      unless_refused-none codec oracle (hashes_field parse_form sha256_hex send parse_json body)
        (check_captcha parse_form sha256_hex send parse_json ctx body) e
