-- ===== src/Home/Consulting.antt =====
-- When the form of src/pages/home.rs consults the oracle: two oracles, of which a submission sees no
-- difference unless it is looked up.
use crackstation_rust.Base.{
  ℕ, ◌≤◌, Bool, true, false, Option, none, some, List, Text, ltb, is_empty, length, Bool-cases, ◌≡◌,
  ◌⊎◌, inl, inr, refl, arith,
}
use crackstation_rust.Cracking.Display.{Codec}
use crackstation_rust.Cracking.Oracle.{CrackWithLimit}
use crackstation_rust.Captcha.{Chunks, Answer}
use crackstation_rust.Home.{
  parse_hashes, Context, refusal, submit, unless_refused, check_captcha, post,
}
use crackstation_rust.Home.Submissions.{is_empty-length, bypassed, raw_of, verdict_of}

-- A text that is looked up: it has 1 to 20 hashes.
pub record IsLookup (raw : Text) : Type 0 where
  pub some_hash : 1 ≤ length (parse_hashes raw)
  pub few : length (parse_hashes raw) ≤ 20

submit-IsLookup :
    (codec : Codec) (oracle other : CrackWithLimit) (raw : Text)
    → (submit codec oracle raw ≡ submit codec other raw) ⊎ IsLookup raw
unfolding submit
submit-IsLookup codec oracle other raw = elim (Bool-cases (ltb 20 (length (parse_hashes raw)))) [
  | inl many ↦ inl (rw many refl)
  | inr few ↦ elim (Bool-cases (is_empty (parse_hashes raw))) [
    | inl nothing ↦ inl (rw (few, nothing) refl)
    | inr given ↦
        inr (record { some_hash = is_empty-length (parse_hashes raw) given; few = ground arith })
  ]
]

module _ (parse_form : Text → List (Text × Text)) (sha256_hex : Text → Text)
    (send : Text → Text → Text → Option Chunks) (parse_json : List ℕ → Option Answer) where
  -- A submission that is looked up: the captcha is bypassed or solved, and there are 1 to 20 hashes.
  pub record Consults (ctx : Context) (body : Text) : Type 0 where
    pub passed :
        (bypassed parse_form sha256_hex send parse_json ctx ≡ true)
        ⊎ (verdict_of parse_form sha256_hex send parse_json ctx body ≡ some true)
    pub lookup : IsLookup (raw_of parse_form sha256_hex send parse_json body)

  verdict-lookup :
      (codec : Codec) (oracle other : CrackWithLimit) (ctx : Context) (body : Text)
      (verdict : Option Bool)
      → verdict_of parse_form sha256_hex send parse_json ctx body ≡ verdict
      → (unless_refused
            (refusal verdict)
            (raw_of parse_form sha256_hex send parse_json body)
            (submit codec oracle (raw_of parse_form sha256_hex send parse_json body))
          ≡ unless_refused
              (refusal verdict)
              (raw_of parse_form sha256_hex send parse_json body)
              (submit codec other (raw_of parse_form sha256_hex send parse_json body)))
        ⊎ Consults ctx body
  unfolding unless_refused refusal
  verdict-lookup codec oracle other ctx body none e = inl refl
  verdict-lookup codec oracle other ctx body (some false) e = inl refl
  verdict-lookup codec oracle other ctx body (some true) e =
      elim (submit-IsLookup codec oracle other
        (raw_of parse_form sha256_hex send parse_json body)) [
          | inl same ↦ inl same
          | inr found ↦ inr (record { passed = inr e; lookup = found })
        ]

  -- A submission has the same outcome over two oracles, unless it is looked up.
  pub post-Consults :
      (codec : Codec) (oracle other : CrackWithLimit) (ctx : Context) (body : Text)
      → (post parse_form sha256_hex send parse_json codec oracle ctx body
          ≡ post parse_form sha256_hex send parse_json codec other ctx body)
        ⊎ Consults ctx body
  unfolding post check_captcha unless_refused
  post-Consults codec oracle other ctx body =
      elim (Bool-cases (bypassed parse_form sha256_hex send parse_json ctx)) [
        | inl granted ↦
            elim (submit-IsLookup codec oracle other
              (raw_of parse_form sha256_hex send parse_json body)) [
                | inl same ↦ inl (rw granted same)
                | inr found ↦ inr (record { passed = inl granted; lookup = found })
              ]
        | inr closed ↦ rw closed (verdict-lookup codec oracle other ctx body _ refl)
      ]
