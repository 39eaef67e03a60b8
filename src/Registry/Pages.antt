-- ===== src/Registry/Pages.antt =====
-- src/registry/pages.rs and the types of src/registry/mod.rs: what a page is, and which there are.
use Prim.Native.String.{String}
use crackstation_rust.Base.{
  ℕ, Bool, true, false, Option, none, some, List, [], ◌∷◌, ◌++◌, map, Text, codes, text_eq, ltb,
  ascii_lower, is_some, if◌then◌else◌,
}

-- The `Handler` of each module of src/pages.
pub data Handler : Type 0 where
  home hashing_security about wordlist legal_privacy not_found : Handler

-- `PageHandler::accepts_post` of each handler: only the home page overrides the default.
unfoldable pub accepts_post : Handler → Bool
accepts_post home = true
accepts_post _ = false

unfoldable pub allowed_methods : Handler → Text
unfolding accepts_post
allowed_methods handler =
    if accepts_post handler then codes "GET, HEAD, POST" else codes "GET, HEAD"

-- `handler.is_some_and(|handler| handler.accepts_post())`.
abbrev pub takes_post : Option Handler → Bool
takes_post none = false
takes_post (some handler) = accepts_post handler

-- The text fields are never walked, but for the slug.
pub record PageInfo : Type 0 where
  pub handler : Option Handler
  pub slug : Text
  pub title : String
  pub description : String
  pub keywords : String
  pub legacy_hit_count_id : Text
  pub redirect : Option Text
  pub no_cache : Bool

-- `Clone`, which the source writes out.
abbrev pub clone : PageInfo → PageInfo
clone page = record {
  handler = page.handler;
  slug = page.slug;
  title = page.title;
  description = page.description;
  keywords = page.keywords;
  legacy_hit_count_id = page.legacy_hit_count_id;
  redirect = page.redirect;
  no_cache = page.no_cache;
}

-- `PageInfo::DEFAULT`.
abbrev pub default_page : PageInfo
default_page = record {
  handler = none;
  slug = [];
  title = "";
  description = "";
  keywords = "";
  legacy_hit_count_id = [];
  redirect = none;
  no_cache = false;
}

-- The macro `alias!`.
abbrev alias : String → String → PageInfo
alias slug target = record default_page { slug = codes slug; redirect = some (codes target) }

-- The macro `page!`.
abbrev page : Handler → String → String → String → String → String → PageInfo
page handler slug title description keywords legacy_hit_count_id = record default_page {
  handler = some handler;
  slug = codes slug;
  title = title;
  description = description;
  keywords = keywords;
  legacy_hit_count_id = codes legacy_hit_count_id;
}

abbrev pub home_page : PageInfo
home_page = record (page home "" "" "" "" "") { no_cache = true }

abbrev pub index_alias : PageInfo
index_alias = alias "index" ""

abbrev pub hashing_security_page : PageInfo
hashing_security_page =
    page hashing_security "hashing-security"
      "Secure Salted Password Hashing - How to do it Properly"
      "How to hash passwords properly using salt. Why hashes should be salted and how to use salt correctly."
      "salt, salted hashing, secure password hashing, password hashing, proper way to hash passwords"
      "hashing-security"

abbrev pub about_page : PageInfo
about_page =
    page about "about-us" "CrackStation Contact" "What CrackStation is and why we exist"
      "crackstation contact" "about-us"

abbrev pub wordlist_page : PageInfo
wordlist_page =
    page wordlist "crackstation-wordlist-password-cracking-dictionary"
      "CrackStation's Password Cracking Dictionary (Pay what you want!)"
      "Download CrackStation's password cracking wordlist."
      "password cracking wordlist, biggest password cracking wordlist, cracking dictionary"
      "crackstation-wordlist-password-cracking-dictionary"

abbrev pub wordlist_alias : PageInfo
wordlist_alias =
    alias "buy-crackstation-wordlist-password-cracking-dictionary"
      "crackstation-wordlist-password-cracking-dictionary"

abbrev pub legal_privacy_page : PageInfo
legal_privacy_page =
    page legal_privacy "legal-privacy" "CrackStation - Legal and Privacy"
      "CrackStation.net's privacy policy"
      "hash cracking legal, penetration testing, password security" "legal-privacy"

abbrev pub missing_page : PageInfo
missing_page = page not_found "404" "" "" "" "404"

abbrev pub pages : List PageInfo
pages =
    home_page ∷ index_alias ∷ hashing_security_page ∷ about_page ∷ wordlist_page ∷ wordlist_alias
    ∷ legal_privacy_page ∷ missing_page ∷ []

-- `NOT_FOUND_PAGE_INFO`.
abbrev pub not_found_page_info : PageInfo
not_found_page_info = record default_page { slug = codes "404" }

-- A `HashMap` by slugs, as the list of its entries.
abbrev pub Registry : Type 0
Registry = List (Text × PageInfo)

unfoldable pub get : Text → Registry → Option PageInfo
get key [] = none
get key ((k, p) ∷ map) = if text_eq key k then some p else get key map

-- The Unicode tables of `str::to_lowercase` outside ASCII, as a function of the characters before
-- the one to lower, that character, and those behind it.
module _ (unicode_lower : Text → ℕ → Text → Text) where
  lower_from : Text → Text → Text
  lower_from before [] = []
  lower_from before (c ∷ s) =
      (if ltb c 128 then ascii_lower c ∷ [] else unicode_lower before c s)
      ++ lower_from (before ++ c ∷ []) s

  unfoldable pub to_lowercase : Text → Text
  unfolding lower_from
  to_lowercase = lower_from []

  -- The loop that fills the map; `none` is the panic on a duplicate slug.
  build_from : List PageInfo → Registry → Option Registry
  build_from [] map = some map
  build_from (page ∷ pages) map =
      let key = to_lowercase page.slug in
      let rest = build_from pages ((key, clone page) ∷ map) in
      if is_some (get key map) then none else rest

  abbrev built : Option Registry → Registry
  built none = []
  built (some map) = map

  -- `PAGE_REGISTRY`; that its construction does not panic is a theorem.
  unfoldable pub page_registry : Option Registry
  unfolding to_lowercase build_from get
  page_registry = build_from pages []
