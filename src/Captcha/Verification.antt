-- ===== src/Captcha/Verification.antt =====
-- When `verify` (libs/recaptcha.rs) takes a captcha for solved.
use crackstation_rust.Base.{
  ℕ, Bool, true, false, Option, none, some, List, Text, text_eq, text_eq_iff, text_eq_sound,
  Bool-cases, Option-cases, ◌≡◌, ◌≢◌, ◌⊎◌, ◌↔◌, inl, inr, refl, ap, arith,
}
use crackstation_rust.Captcha.{
  test_key_hostname, is_plausible_token, Chunks, read_bounded, is_bypass_signature, Answer,
  or_false, verdict, ask, verify,
}

-- The answer of a secret that checks something, or the test secret under the test site key.
abbrev pub IsTrusted : Option Text → Bool → Type 0
IsTrusted hostname serves_test_site_key =
    (hostname ≢ some test_key_hostname) ⊎ (serves_test_site_key ≡ true)

IsTrusted-iff :
    (hostname : Option Text) (kind : Bool)
    → (is_bypass_signature hostname kind ≡ false) ↔ IsTrusted hostname kind
unfolding is_bypass_signature
IsTrusted-iff none kind = (λ h. inl (λ e. cc), λ h. refl)
IsTrusted-iff (some name) true = (λ h. inr refl, λ h. ground arith)
IsTrusted-iff (some name) false = elim (Bool-cases (text_eq name test_key_hostname)) [
  | inl same ↦ (
    λ h. cc (rw same at h),
    elim [
      | inl other ↦ absurd (other (ap some (text_eq_sound name test_key_hostname same)))
      | inr missing ↦ cc
    ],
  )
  | inr other ↦ (
    λ h. inl (λ e. cc (other, (text_eq_iff name test_key_hostname).1 (some-injective e))),
    λ h. rw other refl,
  )
]
  where
    some-injective : {s t : Text} → some s ≡ some t → s ≡ t
    some-injective e = cc

or_false_lem : (o : Option Bool) → or_false o ≡ true → o ≡ some true
or_false_lem none e = cc
or_false_lem (some b) e = cc

verdict_iff :
    (kind : Bool) (json : Answer)
    → (verdict kind json ≡ some true) ↔ ((json.success ≡ some true) × IsTrusted json.hostname kind)
unfolding verdict
verdict_iff kind json = elim (Bool-cases (is_bypass_signature json.hostname kind)) [
  | inl bad ↦ (λ h. cc (rw bad at h), λ h. cc (bad, (IsTrusted-iff json.hostname kind).1 (h.1)))
  | inr good ↦ (
    λ h. (or_false_lem json.success (ground arith), (IsTrusted-iff json.hostname kind).0 good),
    λ h. rw (good, h.0) refl,
  )
]

module _ (send : Text → Text → Text → Option Chunks) (parse_json : List ℕ → Option Answer) where
  -- Google was asked with this secret, and its whole answer says that the token is good.
  abbrev pub IsSolved : Text → Text → Text → Bool → Type 0
  IsSolved secret token ip kind =
      (resp : Chunks) × (body : List ℕ) × (json : Answer) × (send secret token ip ≡ some resp)
      × (read_bounded resp ≡ some body)
      × (parse_json body ≡ some json)
      × (json.success ≡ some true)
      × IsTrusted json.hostname kind

  ask_sound :
      (env : Option Text) (token ip : Text) (kind : Bool)
      → ask send parse_json env token ip kind ≡ some true
      → (secret : Text) × (env ≡ some secret) × IsSolved secret token ip kind
  unfolding ask
  ask_sound none token ip kind h = cc
  ask_sound (some secret) token ip kind h = elim (Option-cases (send secret token ip)) [
    | inl missing ↦ cc (rw missing at h)
    | inr (resp, sent) ↦ elim (Option-cases (read_bounded resp)) [
      | inl missing ↦ cc (rw (sent, missing) at h)
      | inr (body, got) ↦ elim (Option-cases (parse_json body)) [
        | inl missing ↦ cc (rw (sent, got, missing) at h)
        | inr (json, parsed) ↦
            let (success_found, trusted) =
              (verdict_iff kind json).0 (rw (sent, got, parsed) at h) in
            (secret, refl, (resp, body, json, sent, got, parsed, success_found, trusted))
      ]
    ]
  ]

  -- A captcha counts as solved exactly if the token is not empty and at most 8 KiB long, the secret
  -- is set, and Google's answer, read whole, says success, and does not come from the test secret
  -- while the browser has the production site key.
  pub verify_iff :
      (env : Option Text) (token ip : Text) (kind : Bool)
      → (verify send parse_json env token ip kind ≡ some true) ↔ (
          (is_plausible_token token ≡ true)
          × ((secret : Text) × (env ≡ some secret) × IsSolved secret token ip kind))
  unfolding verify ask
  verify_iff env token ip kind = elim (Bool-cases (is_plausible_token token)) [
    | inr missing ↦ (λ h. cc (rw missing at h), λ h. cc (missing, h.0))
    | inl success_found ↦ rw success_found (
      λ h. (refl, ask_sound env token ip kind h),
      λ (_, (secret, e, (resp, body, json, sent, got, parsed, good, trusted))).
          rw (e, sent, got, parsed) ((verdict_iff kind json).1 (good, trusted)),
    )
  ]
