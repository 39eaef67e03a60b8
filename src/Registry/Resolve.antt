-- ===== src/Registry/Resolve.antt =====
-- `lookup_page`, `resolve_alias` and `resolve_path` of src/registry/mod.rs.
use crackstation_rust.Base.{
  ℕ, zero, suc, ◌-◌, String, Option, none, some, [], ◌++◌, Text, codes, text_eq, strip_prefix,
  ends_with, is_empty, length, take, if◌then◌else◌, ◌>>=◌,
}
use text.Mathlib.Text.{◌==◌ as str_eq}
use crackstation_rust.Registry.Pages.{PageInfo, get, to_lowercase, page_registry}

-- `PathLookupResult`.
pub data PathLookupResult : Type 0 where
  canonical : PageInfo → PathLookupResult
  redirect : Text → PathLookupResult
  not_found : PathLookupResult

unfoldable pub relative_url : PageInfo → Text
relative_url page = if is_empty page.slug then codes "/" else codes "/" ++ page.slug ++ codes ".htm"

unfoldable pub hit_counter_id : PageInfo → Text
hit_counter_id page = page.legacy_hit_count_id

abbrev default_title : String
default_title =
    "CrackStation - Online Password Hash Cracking - MD5, SHA1, Linux, Rainbow Tables, etc."

abbrev default_meta_description : String
default_meta_description =
    "Crackstation is the most effective hash cracking service. We crack: MD5, SHA1, SHA2, WPA, and much more..."

abbrev default_meta_keywords : String
default_meta_keywords = "md5 cracking, sha1 cracking, hash cracking, password cracking"

or_default : String → String → String
or_default text default = if str_eq text "" then default else text

pub title_or_default : PageInfo → String
unfolding or_default
title_or_default page = or_default page.title default_title

pub description_or_default : PageInfo → String
unfolding or_default
description_or_default page = or_default page.description default_meta_description

pub keywords_or_default : PageInfo → String
unfolding or_default
keywords_or_default page = or_default page.keywords default_meta_keywords

-- `str::strip_prefix(..).unwrap_or(..)`.
abbrev pub without_prefix : Option Text → Text → Text
without_prefix none s = s
without_prefix (some rest) s = rest

-- The first `n` characters but `k`. The source counts bytes: the `k` cut off are ASCII, since no
-- character outside ASCII lowers to one of `.`, `h`, `t`, `m`, `l` and `p`.
abbrev pub cut : ℕ → Text → Text
cut k s = take (length s - k) s

unfoldable pub strip_extension : Text → Text → Text
strip_extension path_lower s =
    if ends_with (codes ".htm") path_lower
    then cut 4 s
    else if ends_with (codes ".html") path_lower
    then cut 5 s
    else if ends_with (codes ".php") path_lower
    then cut 4 s
    else s

module _ (unicode_lower : Text → ℕ → Text → Text) where
  -- The outer `none` is the panic of a registry that could not be built.
  unfoldable pub lookup_page : Text → Option (Option PageInfo)
  unfolding page_registry to_lowercase get
  lookup_page name = do
    map ← page_registry unicode_lower
    some (get (to_lowercase unicode_lower name) map)

  -- `none` is the panic on a redirect to nowhere, or fuel that ran out.
  pub resolve_alias : ℕ → PageInfo → Option PageInfo
  unfolding lookup_page
  resolve_alias zero page = none
  resolve_alias (suc fuel) page = elim page.redirect [
    | none ↦ some page
    | some target ↦ do
      found ← lookup_page target
      target_page ← found
      resolve_alias fuel target_page
  ]

  -- The end of both branches of `resolve_path`. A chain of aliases is shorter than the registry.
  unfoldable pub answer : Text → PageInfo → Option PathLookupResult
  unfolding resolve_alias relative_url
  answer path page = do
    page ← resolve_alias 8 page
    let url = relative_url page
    some (if text_eq path url then canonical page else redirect url)

  unfoldable pub answer_found : Text → Option PageInfo → Option PathLookupResult
  unfolding answer
  answer_found path none = some not_found
  answer_found path (some page) = answer path page

  unfoldable pub resolve_name : Text → Text → Option PathLookupResult
  resolve_name path name =
      if is_empty name
      then some not_found
      else if ends_with (codes "/") name
      then some not_found
      else (do found ← lookup_page name; answer_found path found)

  -- `none` is a panic; that there is none is a theorem.
  unfoldable pub resolve_path : Text → Option PathLookupResult
  resolve_path path =
      let path_without_slash = without_prefix (strip_prefix (codes "/") path) path in
      if text_eq path (codes "/")
      then (do found ← lookup_page []; page ← found; answer path page)
      else if is_empty path
      then (do found ← lookup_page []; page ← found; answer path page)
      else if ends_with (codes "/") path_without_slash
      then some not_found
      else resolve_name path
          (strip_extension (to_lowercase unicode_lower path_without_slash) path_without_slash)
