-- ===== src/Registry/Debug.antt =====
-- `Debug` of a page, which src/registry/mod.rs writes out by hand.
use crackstation_rust.Base.{Bool, Option, none, some, List, [], ◌∷◌, Text, codes}
use crackstation_rust.Registry.Pages.{Handler, PageInfo}

-- The values that the formatter is handed, by their type.
pub data Field : Type 0 where
  text_field : Text → Field
  option_field : Option Text → Field
  bool_field : Bool → Field

-- A handler has no `Debug`: only that there is one is shown.
abbrev shown_handler : Option Handler → Option Text
shown_handler none = none
shown_handler (some handler) = some (codes "<handler>")

-- The named fields that `fmt` hands to `debug_struct`, in order.
unfoldable pub debug_fields : PageInfo → List (Text × Field)
debug_fields page =
    (codes "handler", option_field (shown_handler page.handler))
    ∷ (codes "slug", text_field page.slug)
    ∷ (codes "title", text_field (codes page.title))
    ∷ (codes "redirect", option_field page.redirect)
    ∷ (codes "no_cache", bool_field page.no_cache)
    ∷ []
