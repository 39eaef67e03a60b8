-- ===== src/Server/Outside.antt =====
-- What src/main.rs puts together that is not under src/: other crates, the files and the network.
use crackstation_rust.Base.{ℕ, Bool, Option, List, Text}
use crackstation_rust.Http.{IpAddr, Method, Response}
use crackstation_rust.Registry.Pages.{Handler}
use crackstation_rust.Cracking.Display.{Codec}
use crackstation_rust.Cracking.Oracle.{CrackWithLimit}
use crackstation_rust.Captcha.{Chunks, Answer}
use crackstation_rust.Home.{HomePage}
use crackstation_rust.Middleware.UrlCanonicalization.{Request}
use crackstation_rust.Dispatcher.{PageContext}

-- What a template is rendered from.
pub data Page (HitCounts : Type 0) : Type 0 where
  plain : Handler → PageContext HitCounts → Page HitCounts
  form : HomePage → PageContext HitCounts → Page HitCounts

pub record Environment (Body Store HitCounts : Type 0) : Type 0 where
  -- The standard library and the crate `http`.
  pub unicode_lower : Text → ℕ → Text → Text
  pub authority_host : Text → Option Text
  -- Whether `HeaderValue` can be made of a text.
  pub is_header_value : Text → Bool
  pub parse_ip : Text → Option IpAddr
  pub show_ip : IpAddr → Text
  -- The hit counter.
  pub no_hits : HitCounts
  pub record_and_get_hits : Text → Text → Text → Store → HitCounts × Store
  -- `axum::body::to_bytes`, and `IntoResponse` of a template of the crate `askama`.
  pub to_bytes : Body → ℕ → Option Text
  pub render : Page HitCounts → Response
  -- The router of axum: whether a path is nested under a prefix, what a `MethodRouter` does to the
  -- response of its fallback, and what the extractor answers where `ConnectInfo` is missing.
  pub is_nested : Text → Text → Bool
  pub after_fallback : Response → Response
  pub missing_connect_info : Response
  -- `ServeDir` on the wordlist archives, and on the static assets: `none` is a call of its fallback.
  pub files : Method → Request → Response
  pub assets : Method → Request → Option Response
  -- The form: the crates `form_urlencoded`, `sha2`, `reqwest` and `serde_json`.
  pub parse_form : Text → List (Text × Text)
  pub sha256_hex : Text → Text
  pub send : Text → Text → Text → Option Chunks
  pub parse_json : List ℕ → Option Answer
  -- The oracle of the crate `preimage`, and the crates that show what it finds.
  pub codec : Codec
  pub oracle : CrackWithLimit
  -- The variable `RECAPTCHA_SECRET_KEY`, and the key of `AppState`.
  pub recaptcha_secret_key : Option Text
  pub recaptcha_site_key : Text
