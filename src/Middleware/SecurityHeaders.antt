-- ===== src/Middleware/SecurityHeaders.antt =====
-- src/middleware/security_headers.rs: the headers of every response.
pub mod Effects
mod Tests
use crackstation_rust.Base.{
  ℕ, Bool, true, false, not, ◌&&◌, Option, none, some, Text, codes, ◌==◌, if◌then◌else◌, ◌>>=◌,
}
use crackstation_rust.Http.{
  HeaderMap, header_str, insert_header, remove_header, Response, method_not_allowed_status,
}
use crackstation_rust.Registry.Resolve.{
  PathLookupResult, canonical, redirect, not_found, resolve_path,
}
use crackstation_rust.Middleware.UrlCanonicalization.{Request, is_dev_host, or_empty, peer_is_https}

abbrev pub forbids_caching : PathLookupResult → Bool
forbids_caching (canonical page) = page.no_cache
forbids_caching (redirect url) = false
forbids_caching not_found = false

-- `none` is a panic of `resolve_path`.
pub check_no_cache : (Text → ℕ → Text → Text) → Text → Option Bool
check_no_cache unicode_lower path = do r ← resolve_path unicode_lower path; some (forbids_caching r)

abbrev pub content_security_policy : Text
content_security_policy =
    codes
      "default-src 'none'; script-src 'self' https://www.google.com https://www.gstatic.com; style-src 'self' 'unsafe-inline'; img-src 'self' data: https://www.google.com https://www.gstatic.com; font-src 'self'; connect-src 'self' https://www.google.com; frame-src https://www.google.com; form-action 'self'; base-uri 'none'; frame-ancestors 'self'"

-- The four headers that every response has.
pub insert_always : HeaderMap → HeaderMap
unfolding insert_header
insert_always headers = insert_header "content-security-policy" content_security_policy (
    insert_header "referrer-policy" (codes "strict-origin-when-cross-origin") (
      insert_header "x-content-type-options" (codes "nosniff")
        (insert_header "x-frame-options" (codes "SAMEORIGIN") headers)))

pub insert_no_cache : Bool → HeaderMap → HeaderMap
unfolding insert_header
insert_no_cache is_no_cache_page headers =
    if is_no_cache_page
    then insert_header "pragma" (codes "no-cache") (
        insert_header "expires" (codes "Mon, 01 Jan 1990 00:00:00 GMT")
          (insert_header "cache-control" (codes "no-cache, no-store, must-revalidate") headers))
    else headers

pub drop_allow : ℕ → HeaderMap → HeaderMap
unfolding remove_header
drop_allow status headers =
    if not (status == method_not_allowed_status) then remove_header "allow" headers else headers

abbrev pub hsts_value : Text
hsts_value = codes "max-age=31536000; includeSubDomains; preload"

pub insert_hsts : Bool → HeaderMap → HeaderMap
unfolding insert_header
insert_hsts wanted headers =
    if wanted then insert_header "strict-transport-security" hsts_value headers else headers

pub wants_hsts : Request → Bool
wants_hsts req =
    peer_is_https req.connection_ip req.headers
    && not (is_dev_host (or_empty (header_str "host" req.headers)))

-- The body of the layer on the response of the inner service.
pub secured : Bool → Bool → Response → Response
unfolding insert_always insert_no_cache drop_allow insert_hsts
secured is_no_cache_page hsts response = record {
  status = response.status;
  headers = insert_hsts hsts (
      drop_allow response.status
        (insert_no_cache is_no_cache_page (insert_always response.headers)));
}

-- `Service::call`, with the answer of the inner service, which is called after the path is
-- resolved; a `none` of the inner service is its error, or its panic.
pub add_security_headers : (Text → ℕ → Text → Text) → Request → Option Response → Option Response
add_security_headers unicode_lower req answered = do
  is_no_cache_page ← check_no_cache unicode_lower req.path
  response ← answered
  some (secured is_no_cache_page (wants_hsts req) response)
