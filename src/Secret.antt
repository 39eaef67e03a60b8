-- ===== src/Secret.antt =====
-- src/context.rs: the secret in the header by which a captcha is bypassed.
use crackstation_rust.Base.{Text, codes}

pub record BypassSecret : Type 0 where
  pub value : Text

-- `BypassSecret::new`.
abbrev pub new_secret : Text → BypassSecret
new_secret value = record { value = value }

abbrev pub expose : BypassSecret → Text
expose secret = secret.value

-- `fmt` of its `Debug`.
abbrev pub debug_secret : BypassSecret → Text
debug_secret secret = codes "BypassSecret([redacted])"
