-- ===== src/Dispatcher.antt =====
-- src/registered_page_handler.rs: from a request to the handler of its page; and src/context.rs.
mod Checks
pub mod Dispatch
pub mod Unsupported
pub mod Contexts
mod Tests
use mathlib.Core.Option
use crackstation_rust.Base.{
  ℕ, Bool, true, false, not, ◌&&◌, Option, none, some, List, [], ◌++◌, Text, codes, is_empty,
  if◌then◌else◌, ◌>>=◌,
}
use crackstation_rust.Secret.{BypassSecret, new_secret}
use crackstation_rust.Http.{HeaderMap, header_str, IpAddr, Method, post, is_post}
use crackstation_rust.Util.{client_ip}
use crackstation_rust.Registry.Pages.{
  Handler, PageInfo, accepts_post, allowed_methods, not_found_page_info,
}
use crackstation_rust.Registry.Resolve.{
  PathLookupResult, canonical, redirect, not_found, hit_counter_id, resolve_path,
}
use crackstation_rust.Middleware.UrlCanonicalization.{Request, is_dev_host, or_empty}
use crackstation_rust.Csrf.{Check, ok, check_origin}
use crackstation_rust.Captcha.{production_recaptcha_site_key}

-- `PageContext`; what `hit_counts` holds is the counter's.
pub record PageContext (HitCounts : Type 0) : Type 0 where
  pub page_info : PageInfo
  pub client_ip : Text
  pub hit_counts : HitCounts
  pub captcha_bypass_header : Option BypassSecret
  pub query_string : Option Text
  pub url_prefix : Text
  pub recaptcha_site_key : Text

unfoldable pub is_home : {HitCounts : Type 0} → PageContext HitCounts → Bool
is_home ctx = is_empty ctx.page_info.slug

-- The responses, and the calls of a handler's `get` and `post`.
pub data Reply (HitCounts : Type 0) : Type 0 where
  bad_request : Reply HitCounts
  render_not_found : PageContext HitCounts → Reply HitCounts
  method_not_allowed : Text → Reply HitCounts
  cross_origin_rejected : Reply HitCounts
  call_get : Handler → PageContext HitCounts → Reply HitCounts
  call_post : Handler → PageContext HitCounts → Text → Reply HitCounts

-- `matches!(check_origin(..), Err(_))`.
abbrev pub is_rejected : Check → Bool
is_rejected ok = false
is_rejected _ = true

unfoldable pub url_prefix_of : Text → Text
url_prefix_of host =
    (if is_dev_host host then codes "http" else codes "https") ++ codes "://" ++ host

abbrev pub user_agent_of : Request → Text
user_agent_of req = or_empty (header_str "user-agent" req.headers)

-- The counter is a parameter: a call with a page, an address and a user agent gives the counts and
-- the next state. So are the host of an `Authority`, and the parser and the printer of addresses.
module _ (unicode_lower : Text → ℕ → Text → Text) (authority_host : Text → Option Text)
    (parse_ip : Text → Option IpAddr) (show_ip : IpAddr → Text) {Store HitCounts : Type 0}
    (no_hits : HitCounts) (record_and_get_hits : Text → Text → Text → Store → HitCounts × Store)
    (recaptcha_site_key : Text) where
  abbrev pub not_found_context : Text → PageContext HitCounts
  not_found_context client_ip = record {
    page_info = not_found_page_info;
    client_ip = client_ip;
    hit_counts = no_hits;
    captcha_bypass_header = none;
    query_string = none;
    url_prefix = codes "https://crackstation.net";
    recaptcha_site_key = production_recaptcha_site_key;
  }

  abbrev pub context_of : Request → Text → PageInfo → HitCounts → PageContext HitCounts
  context_of req client_ip page_info hit_counts = record {
    page_info = page_info;
    client_ip = client_ip;
    hit_counts = hit_counts;
    captcha_bypass_header = Option.map new_secret (header_str "x-captcha-bypass" req.headers);
    query_string = req.query;
    url_prefix = url_prefix_of (or_empty (header_str "host" req.headers));
    recaptcha_site_key = recaptcha_site_key;
  }

  -- The end of `handle`, after the body is taken from the extensions; `none` is `unreachable!`.
  pub dispatch :
      Method
      → Request
      → Text
      → PageInfo
      → Handler
      → Option Text
      → Store
      → Option (Reply HitCounts × Store)
  dispatch method req client_ip page_info handler body store =
      let (hits, after) =
        record_and_get_hits (hit_counter_id page_info) client_ip (user_agent_of req) store in
      let ctx = context_of req client_ip page_info hits in
      elim method [
        | Method.get ↦ some (call_get handler ctx, after)
        | Method.head ↦ some (call_get handler ctx, after)
        | Method.post ↦ do bytes ← body; some (call_post handler ctx bytes, after)
        | Method.other ↦ none
      ]

  -- `expect` on the body: it panics before the hit is counted.
  pub with_body :
      Method
      → Request
      → Text
      → PageInfo
      → Handler
      → Option Text
      → Store
      → Option (Reply HitCounts × Store)
  with_body method req client_ip page_info handler post_body store =
      if is_post method
      then (do
        bytes ← post_body
        dispatch method req client_ip page_info handler (some bytes) store)
      else dispatch method req client_ip page_info handler none store

  pub handle_page :
      Method
      → Request
      → Text
      → PageInfo
      → Handler
      → Option Text
      → Store
      → Option (Reply HitCounts × Store)
  handle_page method req client_ip page_info handler post_body store =
      if is_post method && not (accepts_post handler)
      then some (method_not_allowed (allowed_methods handler), store)
      else if is_post method && is_rejected (check_origin unicode_lower authority_host req.headers)
      then some (cross_origin_rejected, store)
      else with_body method req client_ip page_info handler post_body store

  -- `none` is the panic on a redirect, or on a page without a handler.
  pub handle_result :
      Method
      → Request
      → Text
      → Option Text
      → Store
      → PathLookupResult
      → Option (Reply HitCounts × Store)
  handle_result method req client_ip post_body store (canonical page) = do
    handler ← page.handler
    handle_page method req client_ip page handler post_body store
  handle_result method req client_ip post_body store not_found =
      some (render_not_found (not_found_context client_ip), store)
  handle_result method req client_ip post_body store (redirect url) = none

  -- The body comes from the extensions of the request; a missing `ConnectInfo` panics.
  pub handle : Method → Request → Option Text → Store → Option (Reply HitCounts × Store)
  handle method req post_body store = do
    connection_ip ← req.connection_ip
    let client = show_ip (client_ip parse_ip connection_ip req.headers)
    if is_empty (or_empty (header_str "host" req.headers)) then some (bad_request, store) else (do
      r ← resolve_path unicode_lower req.path
      handle_result method req client post_body store r)

  pub unsupported_reply : Text → PathLookupResult → Option (Reply HitCounts)
  unsupported_reply client_ip (canonical page) = do
    handler ← page.handler
    some (method_not_allowed (allowed_methods handler))
  unsupported_reply client_ip (redirect url) = some (render_not_found (not_found_context client_ip))
  unsupported_reply client_ip not_found = some (render_not_found (not_found_context client_ip))

  pub handle_unsupported_method : IpAddr → HeaderMap → Text → Option (Reply HitCounts)
  handle_unsupported_method connection_ip headers path = do
    r ← resolve_path unicode_lower path
    unsupported_reply (show_ip (client_ip parse_ip connection_ip headers)) r
