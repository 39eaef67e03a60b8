-- ===== src/Registry/Tests.antt =====
-- Runs of src/registry/mod.rs.
use crackstation_rust.Base.{ℕ, Text, codes, ◌≡◌, refl, some, none, true, [], ◌∷◌}
use mathlib.Core.Equiv.{IsContr}
use crackstation_rust.Registry.Urls.{ServedUrl, ServedUrl-IsContr}
use crackstation_rust.Registry.Debug.{text_field, option_field, bool_field, debug_fields}
use crackstation_rust.Registry.Pages.{Handler, about_page, home_page, to_lowercase}
use crackstation_rust.Fixtures.{no_unicode}
use crackstation_rust.Registry.Laws.{IsRight, resolve_path-IsRight}
use crackstation_rust.Registry.Resolve.{
  PathLookupResult, resolve_path, resolve_name, lookup_page, answer_found, strip_extension,
  canonical, redirect, not_found,
}

module _ (u : Text → ℕ → Text → Text) where
  canonical_page : resolve_path u (codes "/about-us.htm") ≡ some (canonical about_page)
  unfolding resolve_path resolve_name lookup_page answer_found strip_extension to_lowercase
  canonical_page = refl

  other_case : resolve_path u (codes "/About-Us.HTML") ≡ some (redirect (codes "/about-us.htm"))
  unfolding resolve_path resolve_name lookup_page answer_found strip_extension to_lowercase
  other_case = refl

  index : resolve_path u (codes "/INDEX.PHP") ≡ some (redirect (codes "/"))
  unfolding resolve_path resolve_name lookup_page answer_found strip_extension to_lowercase
  index = refl

  root : resolve_path u (codes "/") ≡ some (canonical home_page)
  unfolding resolve_path resolve_name lookup_page answer_found strip_extension to_lowercase
  root = refl

  doubled : resolve_path u (codes "/index.htm.htm") ≡ some not_found
  unfolding resolve_path resolve_name lookup_page answer_found strip_extension to_lowercase
  doubled = refl

  no_name : resolve_path u (codes "/.htm") ≡ some not_found
  unfolding resolve_path resolve_name lookup_page answer_found strip_extension to_lowercase
  no_name = refl

debug_home :
    debug_fields home_page
    ≡ (codes "handler", option_field (some (codes "<handler>")))
      ∷ (codes "slug", text_field [])
      ∷ (codes "title", text_field (codes home_page.title))
      ∷ (codes "redirect", option_field none)
      ∷ (codes "no_cache", bool_field true)
      ∷ []
unfolding debug_fields
debug_home = refl

resolve_path-IsRight_example :
    (r : PathLookupResult) × (resolve_path no_unicode (codes "/About-Us.HTML") ≡ some r)
    × IsRight no_unicode (codes "/About-Us.HTML") r
resolve_path-IsRight_example = resolve_path-IsRight no_unicode (codes "/About-Us.HTML")

ServedUrl-IsContr_example : IsContr (ServedUrl no_unicode Handler.about)
ServedUrl-IsContr_example = ServedUrl-IsContr no_unicode Handler.about
