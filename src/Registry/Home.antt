-- ===== src/Registry/Home.antt =====
-- The home page is the page of the path `/`, and of no other (registry/mod.rs).
use crackstation_rust.Base.{
  ℕ, true, Option, none, some, [], ◌∷◌, ◌++◌, Text, codes, text_eq, text_eq_iff, text_eq_sound,
  is_empty, Bool-cases, inl, inr, ◌≡◌, refl, subst, arith,
}
use crackstation_rust.Registry.Pages.{PageInfo, home_page, to_lowercase}
use crackstation_rust.Registry.Resolve.{
  PathLookupResult, canonical, relative_url, resolve_path, resolve_name, lookup_page, answer_found,
  strip_extension,
}
use crackstation_rust.Registry.Laws.{IsRight, resolve_path-IsRight}

abbrev RightOf : (Text → ℕ → Text → Text) → Text → Option PathLookupResult → Type 0
RightOf u path none = Unit
RightOf u path (some r) = IsRight u path r

not_root : (s : Text) → codes "/" ++ s ++ codes ".htm" ≡ codes "/" → ⊥
not_root [] e = cc
not_root (c ∷ s) e = cc

module _ (u : Text → ℕ → Text → Text) where
  resolve_root : resolve_path u (codes "/") ≡ some (canonical home_page)
  unfolding resolve_path resolve_name lookup_page answer_found strip_extension to_lowercase
  resolve_root = refl

  pub resolve_home :
      (path : Text) → path ≡ codes "/" → resolve_path u path ≡ some (canonical home_page)
  resolve_home path e = rw e resolve_root

  pub IsRight-of_found :
      (path : Text) {r : PathLookupResult} → resolve_path u path ≡ some r → IsRight u path r
  IsRight-of_found path {r} h =
      let (r', e, right) = resolve_path-IsRight u path in
      let same : some r' ≡ some r = ground arith in subst (λ x. RightOf u path x) same right

  slug_of_root : (page : PageInfo) → relative_url page ≡ codes "/" → is_empty page.slug ≡ true
  unfolding relative_url
  slug_of_root page e = elim (Bool-cases (is_empty page.slug)) [
    | inl h ↦ h
    | inr h ↦ absurd (not_root page.slug (rw h at e))
  ]

  root_of_slug : (page : PageInfo) → is_empty page.slug ≡ true → relative_url page ≡ codes "/"
  unfolding relative_url
  root_of_slug page h = rw h refl

  -- Of the pages that are served, the one without a slug stands under `/`.
  pub slug_of_canonical :
      (path : Text) (page : PageInfo)
      → path ≡ relative_url page
      → is_empty page.slug ≡ text_eq path (codes "/")
  slug_of_canonical path page e = elim (Bool-cases (text_eq path (codes "/"))) [
    | inl root ↦ rw root (slug_of_root page (rw (← e) (text_eq_sound path (codes "/") root)))
    | inr other ↦ elim (Bool-cases (is_empty page.slug)) [
      | inr h ↦ rw (other, h) refl
      | inl h ↦ cc (h, (text_eq_iff path (codes "/")).1 (rw e (root_of_slug page h)))
    ]
  ]
