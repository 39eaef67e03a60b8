-- ===== src/Captcha/Configuration.antt =====
-- Which configurations of the captcha the program starts with (main.rs, app_state.rs).
use crackstation_rust.Base.{
  Bool, true, false, some, Text, text_eq, trim, is_empty, Bool-cases, ◌≡◌, ◌↔◌, inl, inr, refl, sym,
  ◌∙◌,
}
use crackstation_rust.Captcha.{
  google_test_secret, site_key_for, is_test_site_key, Boot, check_pair, check_captcha_config,
}

served_kind : (flag : Bool) → is_test_site_key (site_key_for flag) ≡ flag
unfolding is_test_site_key site_key_for
served_kind true = refl
served_kind false = refl

pair_iff : (flag test : Bool) → ((boot : Boot) × (check_pair flag test ≡ some boot)) ↔ (test ≡ flag)
unfolding check_pair
pair_iff true true = (λ h. refl, λ h. (Boot.development_captcha, refl))
pair_iff true false = (λ h. cc (h.1), λ h. cc)
pair_iff false true = (λ h. cc (h.1), λ h. cc)
pair_iff false false = (λ h. refl, λ h. (Boot.production_captcha, refl))

-- The program starts with a flag and a secret exactly if the secret is not blank, and if the
-- browser is served the test site key just where the secret is Google's test secret: never a
-- genuine challenge that any token solves, never a challenge that no token solves.
pub check_captcha_config_iff :
    (flag : Bool) (secret : Text)
    → ((boot : Boot) × (check_captcha_config flag secret ≡ some boot)) ↔ (
        (is_empty (trim secret) ≡ false)
        × (text_eq (trim secret) google_test_secret ≡ is_test_site_key (site_key_for flag)))
unfolding check_captcha_config
check_captcha_config_iff flag secret = elim (Bool-cases (is_empty (trim secret))) [
  | inl blank ↦ (λ h. cc (rw blank at (h.1)), λ h. cc (blank, h.0))
  | inr given ↦ rw given (
    λ h. (
      refl,
      (pair_iff flag (text_eq (trim secret) google_test_secret)).0 h ∙ sym (served_kind flag),
    ),
    λ h. (pair_iff flag (text_eq (trim secret) google_test_secret)).1 (h.1 ∙ served_kind flag),
  )
]
