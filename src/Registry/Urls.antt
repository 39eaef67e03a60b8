-- ===== src/Registry/Urls.antt =====
-- Where src/registry/mod.rs serves the handlers of src/pages.
use mathlib.Core.Equiv.{IsContr}
use mathlib.Core.HLevel.{Σ_prop_path}
use crackstation_rust.Base.{ℕ, Option, none, some, Text, ◌≡◌, refl}
use crackstation_rust.Registry.Pages.{Handler, to_lowercase}
use crackstation_rust.Registry.Resolve.{
  PathLookupResult, canonical, redirect, not_found, resolve_path, resolve_name, lookup_page,
  answer_found, strip_extension,
}
use crackstation_rust.Registry.Laws.{IsRight, resolve_path-IsRight, url}

-- The handler of a page that is served, and not redirected to.
abbrev pub served_handler : Option PathLookupResult → Option Handler
served_handler (some (canonical page)) = page.handler
served_handler (some (redirect target)) = none
served_handler (some not_found) = none
served_handler none = none

Handler-set : IsSet (Option Handler)
Handler-set = hlevel

module _ (u : Text → ℕ → Text → Text) where
  -- A path under which a handler is served.
  abbrev pub ServedUrl : Handler → Type 0
  ServedUrl handler = (path : Text) × (served_handler (resolve_path u path) ≡ some handler)

  url-served : (handler : Handler) → served_handler (resolve_path u (url handler)) ≡ some handler
  unfolding resolve_path resolve_name lookup_page answer_found strip_extension to_lowercase
  url-served Handler.home = refl
  url-served Handler.hashing_security = refl
  url-served Handler.about = refl
  url-served Handler.wordlist = refl
  url-served Handler.legal_privacy = refl
  url-served Handler.not_found = refl

  url_of_result :
      (path : Text) (r : PathLookupResult) (handler : Handler)
      → IsRight u path r
      → served_handler (some r) ≡ some handler
      → path ≡ url handler
  url_of_result path (canonical page) handler (e, served) h = cc (e, served.7)
  url_of_result path (redirect target) handler right h = cc
  url_of_result path not_found handler right h = cc

  -- Whatever the Unicode tables: each handler of src/pages is served under exactly one path.
  pub ServedUrl-IsContr : (handler : Handler) → IsContr (ServedUrl handler)
  ServedUrl-IsContr handler = (
    (url handler, url-served handler),
    λ (path, e).
        let (r, found, right) = resolve_path-IsRight u path in
        Σ_prop_path (λ p. Handler-set _ _) (url_of_result path r handler right (rw found at e)),
  )
