-- ===== src/Csrf.antt =====
-- src/libs/csrf.rs: whether a POST request comes from this site.
pub mod Origin
pub mod Tests
use crackstation_rust.Base.{
  ℕ, Bool, true, false, ◌&&◌, ◌||◌, not, Option, none, some, List, [], ◌∷◌, Text, codes, split,
  strip_prefix, eq_ignore_ascii_case, if◌then◌else◌,
}
use crackstation_rust.Http.{HeaderMap, header_str}
use crackstation_rust.Middleware.UrlCanonicalization.{master_host, is_dev_host, host_name, or_empty}

-- `Result<(), &str>`: the three reasons of a refusal.
pub data Check : Type 0 where
  ok : Check
  origin_mismatch referer_mismatch no_header : Check

abbrev found_or : Option Text → Text → Text
found_or none later = later
found_or (some rest) later = rest

-- `url.find("://").map(|i| &url[i + 3..]).unwrap_or(url)`.
after_scheme_from : Text → Text → Text
after_scheme_from url [] = url
after_scheme_from url (c ∷ s) =
    found_or (strip_prefix (codes "://") (c ∷ s)) (after_scheme_from url s)

pub after_scheme : Text → Text
unfolding after_scheme_from
after_scheme url = after_scheme_from url url

-- `split('/').next().unwrap_or(..)`.
abbrev first_part : Text → List Text → Text
first_part default [] = default
first_part default (p ∷ ps) = p

pub host_from_url : Text → Text
unfolding after_scheme split
host_from_url url = first_part (after_scheme url) (split b'/' (after_scheme url))

module _ (unicode_lower : Text → ℕ → Text → Text) (authority_host : Text → Option Text) where
  pub strip_port : Text → Text
  unfolding host_name
  strip_port host = or_empty (host_name unicode_lower authority_host host)

  pub is_accepted_host : Text → Bool
  is_accepted_host host = eq_ignore_ascii_case (strip_port host) master_host || is_dev_host host

  pub hosts_match : Text → Text → Bool
  hosts_match origin_host request_host =
      if not (is_accepted_host request_host)
      then false
      else eq_ignore_ascii_case (strip_port origin_host) (strip_port request_host)
        || eq_ignore_ascii_case (strip_port origin_host) master_host

  -- The fallback on `Referer`.
  pub check_referer : Text → Option Text → Check
  check_referer request_host none = no_header
  check_referer request_host (some referer) =
      if hosts_match (host_from_url referer) request_host then ok else referer_mismatch

  pub check_source : Text → Option Text → Option Text → Check
  check_source request_host none referer = check_referer request_host referer
  check_source request_host (some origin) referer =
      if hosts_match (host_from_url origin) request_host then ok else origin_mismatch

  pub check_origin : HeaderMap → Check
  unfolding check_source check_referer
  check_origin headers =
      check_source (or_empty (header_str "host" headers)) (header_str "origin" headers)
        (header_str "referer" headers)
