-- ===== src/Registry/Laws.antt =====
-- What `resolve_path` (registry/mod.rs) answers, whatever the path.
use crackstation_rust.Base.{
  ℕ, Lacks, true, false, Option, none, some, [], ◌∷◌, Text, codes, text_eq, text_eq_sound,
  text_eq_iff, strip_prefix, ◌>>=◌, All, is_some, is_empty, ends_with, Bool-cases, ◌≡◌, ◌≢◌, refl,
  subst, arith, inl, inr,
}
use crackstation_rust.Registry.Pages.{
  Handler, accepts_post, takes_post, PageInfo, Registry, get, to_lowercase, page_registry,
  home_page, index_alias, hashing_security_page, about_page, wordlist_page, wordlist_alias,
  legal_privacy_page, missing_page,
}
use crackstation_rust.Registry.Resolve.{
  hit_counter_id, PathLookupResult, canonical, redirect, not_found, relative_url, lookup_page,
  resolve_alias, answer, answer_found, resolve_name, resolve_path, strip_extension, without_prefix,
}

abbrev stripped : Text → Text
stripped path = without_prefix (strip_prefix (codes "/") path) path

-- A path as a request has it: it begins with a slash and holds no question mark.
abbrev pub IsPath : Text → Type 0
IsPath [] = ⊥
IsPath (c ∷ p) = (c ≡ b'/') × Lacks b'?' p

text_ne : (t s : Text) → s ≡ t → text_eq s t ≡ false → ⊥
text_ne t s e h = cc ((text_eq_iff s t).1 e, h)

module _ (P : PageInfo → Type 0) where
  abbrev Holds : Option PageInfo → Type 0
  Holds none = Unit
  Holds (some p) = P p

  get-All : (m : Registry) (k : Text) {p : PageInfo} → All (λ e. P e.1) m → get k m ≡ some p → P p
  unfolding get
  get-All [] k h e = cc
  get-All ((j, q) ∷ m) k {p} (h, hs) e = elim (Bool-cases (text_eq k j)) [
    | inl hit ↦ let same : some q ≡ some p = ground arith in subst (λ o. Holds o) same h
    | inr miss ↦ get-All m k hs (ground arith)
  ]

-- The URL of each handler of src/pages.
abbrev pub url : Handler → Text
url Handler.home = codes "/"
url Handler.hashing_security = codes "/hashing-security.htm"
url Handler.about = codes "/about-us.htm"
url Handler.wordlist = codes "/crackstation-wordlist-password-cracking-dictionary.htm"
url Handler.legal_privacy = codes "/legal-privacy.htm"
url Handler.not_found = codes "/404.htm"

abbrev pub url_of : Option Handler → Option Text
url_of none = none
url_of (some handler) = some (url handler)

module _ (u : Text → ℕ → Text → Text) where
  -- A page that is rendered and not redirected, at a URL that a request can have: the one of its
  -- handler. The home page alone takes a POST and is not cached; the hits are counted under the slug.
  abbrev pub IsServed : PageInfo → Type 0
  IsServed page =
      (page.redirect ≡ none)
      × (is_some page.handler ≡ true)
      × (resolve_path u (relative_url page) ≡ some (canonical page))
      × IsPath (relative_url page)
      × (takes_post page.handler ≡ is_empty page.slug)
      × (page.no_cache ≡ is_empty page.slug)
      × (hit_counter_id page ≡ page.slug)
      × (url_of page.handler ≡ some (relative_url page))

  abbrev Leads : PageInfo → Type 0
  Leads page = (target : PageInfo) × (resolve_alias u 8 page ≡ some target) × IsServed target

  abbrev registry : Registry
  registry =
      (codes "404", missing_page)
      ∷ (codes "legal-privacy", legal_privacy_page)
      ∷ (codes "buy-crackstation-wordlist-password-cracking-dictionary", wordlist_alias)
      ∷ (codes "crackstation-wordlist-password-cracking-dictionary", wordlist_page)
      ∷ (codes "about-us", about_page)
      ∷ (codes "hashing-security", hashing_security_page)
      ∷ (codes "index", index_alias)
      ∷ ([], home_page)
      ∷ []

  page_registry_lem : page_registry u ≡ some registry
  unfolding page_registry
  page_registry_lem = refl

  pages-Lead : All (λ e. Leads e.1) registry
  unfolding resolve_path resolve_name lookup_page answer_found strip_extension to_lowercase
      relative_url accepts_post hit_counter_id
  pages-Lead = (
    (missing_page, refl, (refl, refl, refl, omega arith, refl, refl, refl, refl)),
    (
      (legal_privacy_page, refl, (refl, refl, refl, omega arith, refl, refl, refl, refl)),
      (
        (wordlist_page, refl, (refl, refl, refl, omega arith, refl, refl, refl, refl)),
        (
          (wordlist_page, refl, (refl, refl, refl, omega arith, refl, refl, refl, refl)),
          (
            (about_page, refl, (refl, refl, refl, omega arith, refl, refl, refl, refl)),
            (
              (
                hashing_security_page,
                refl,
                (refl, refl, refl, omega arith, refl, refl, refl, refl),
              ),
              (
                (home_page, refl, (refl, refl, refl, omega arith, refl, refl, refl, refl)),
                ((home_page, refl, (refl, refl, refl, omega arith, refl, refl, refl, refl)), tt),
              ),
            ),
          ),
        ),
      ),
    ),
  )

  -- What an answer promises about the path that it answers.
  abbrev pub IsRight : Text → PathLookupResult → Type 0
  IsRight path (canonical page) = (path ≡ relative_url page) × IsServed page
  IsRight path (redirect url) =
      (path ≢ url) × ((page : PageInfo) × (url ≡ relative_url page) × IsServed page)
  IsRight path not_found = Unit

  abbrev Answers : Text → Option PathLookupResult → Type 0
  Answers path answer = (r : PathLookupResult) × (answer ≡ some r) × IsRight path r

  Answers-answer : (path : Text) (page : PageInfo) → Leads page → Answers path (answer u path page)
  unfolding answer
  Answers-answer path page (target, alias, served) =
      elim (Bool-cases (text_eq path (relative_url target))) [
        | inl same ↦ (canonical target, ground arith, (text_eq_sound _ _ same, served))
        | inr other ↦ (
          redirect (relative_url target),
          ground arith,
          (λ e. text_ne (relative_url target) path e other, (target, refl, served)),
        )
      ]

  lookup_page-Leads :
      (name : Text) {page : PageInfo} → lookup_page u name ≡ some (some page) → Leads page
  unfolding lookup_page
  lookup_page-Leads name e =
      get-All Leads registry (to_lowercase u name) pages-Lead (ground (arith, page_registry_lem))

  lookup_page_total : (name : Text) → (found : Option PageInfo) × (lookup_page u name ≡ some found)
  unfolding lookup_page
  lookup_page_total name = (get (to_lowercase u name) registry, refl)

  Answers-answer_found :
      (path name : Text) (found : Option PageInfo)
      → lookup_page u name ≡ some found
      → Answers path (answer_found u path found)
  unfolding answer_found
  Answers-answer_found path name none e = (not_found, refl, tt)
  Answers-answer_found path name (some page) e = Answers-answer path page (lookup_page-Leads name e)

  Answers-lookup_page :
      (path name : Text) → Answers path (do found ← lookup_page u name; answer_found u path found)
  Answers-lookup_page path name =
      let (found, e) = lookup_page_total name in rw e (Answers-answer_found path name found e)

  Answers-resolve_name : (path name : Text) → Answers path (resolve_name u path name)
  unfolding resolve_name
  Answers-resolve_name path name = elim (Bool-cases (is_empty name)) [
    | inl bad ↦ rw bad (not_found, refl, tt)
    | inr good ↦ elim (Bool-cases (ends_with (codes "/") name)) [
      | inl bad ↦ rw (good, bad) (not_found, refl, tt)
      | inr ok ↦ rw (good, ok) (Answers-lookup_page path name)
    ]
  ]

  Answers-home :
      (path : Text) → Answers path (do found ← lookup_page u []; page ← found; answer u path page)
  unfolding lookup_page
  Answers-home path = Answers-answer path home_page (pages-Lead.1.1.1.1.1.1.1.0)

  -- Whatever the path, resolution returns without a panic. A page is served only under its own
  -- canonical URL, and is no alias and has a handler; a redirect goes to another path, which is the
  -- canonical URL of such a page and is served without a further redirect.
  pub resolve_path-IsRight :
      (path : Text) → (r : PathLookupResult) × (resolve_path u path ≡ some r) × IsRight path r
  unfolding resolve_path
  resolve_path-IsRight path = elim (Bool-cases (text_eq path (codes "/"))) [
    | inl root ↦ rw root (Answers-home path)
    | inr a ↦ elim (Bool-cases (is_empty path)) [
      | inl root ↦ rw (a, root) (Answers-home path)
      | inr b ↦ elim (Bool-cases (ends_with (codes "/") (stripped path))) [
        | inl directory ↦ rw (a, b, directory) (not_found, refl, tt)
        | inr c ↦ rw (a, b, c) (Answers-resolve_name path _)
      ]
    ]
  ]
