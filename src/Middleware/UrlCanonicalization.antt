-- ===== src/Middleware/UrlCanonicalization.antt =====
-- src/middleware/url_canonicalization.rs: which requests are redirected, and where to.
pub mod Urls
pub mod Ways
pub mod Redirects
mod Tests
use mathlib.Core.Option
use mathlib.Core.Option.{get_or}
use crackstation_rust.Base.{
  ℕ, Bool, true, false, not, ◌&&◌, ◌||◌, String, Option, none, some, List, [], ◌∷◌, ◌++◌, Text,
  codes, any, text_eq, eq_ignore_ascii_case, is_empty, if◌then◌else◌, ◌>>=◌,
}
use crackstation_rust.Http.{HeaderMap, header_str, IpAddr}
use crackstation_rust.Util.{is_https}
use crackstation_rust.Registry.Pages.{PageInfo, to_lowercase}
use crackstation_rust.Registry.Resolve.{
  PathLookupResult, canonical, redirect, not_found, resolve_path,
}

abbrev pub master_host : Text
master_host = codes "crackstation.net"

abbrev pub dev_hosts : List Text
dev_hosts =
    codes "localhost"
    ∷ codes "localhost:3000"
    ∷ codes "localhost:8080"
    ∷ codes "localhost:8443"
    ∷ codes "127.0.0.1"
    ∷ codes "127.0.0.1:3000"
    ∷ codes "127.0.0.1:8080"
    ∷ codes "127.0.0.1:8443"
    ∷ codes "crackstation"
    ∷ codes "crackstation:20443"
    ∷ codes "crackstation.h.defuse.ca"
    ∷ []

abbrev pub force_https : Bool
force_https = true

unfoldable pub is_dev_host : Text → Bool
is_dev_host host = any (λ h. eq_ignore_ascii_case h host) dev_hosts

-- `Option::unwrap_or_default` of a text.
abbrev pub or_empty : Option Text → Text
or_empty none = []
or_empty (some s) = s

pub build_redirect_url : Bool → Text → Text → Option Text → Text
build_redirect_url https host path none =
    (if https then codes "https" else codes "http") ++ codes "://" ++ host ++ path
build_redirect_url https host path (some q) =
    (if https then codes "https" else codes "http") ++ codes "://" ++ host ++ path ++ codes "?" ++ q

pub append_query : Text → Option Text → Text
append_query path none = path
append_query path (some q) = path ++ codes "?" ++ q

-- What the layer reads of a request. The peer's address comes from `ConnectInfo`.
pub record Request : Type 0 where
  pub connection_ip : Option IpAddr
  pub headers : HeaderMap
  pub path : Text
  pub query : Option Text

-- The two responses of the layer, and the call of the inner service.
pub data Outcome : Type 0 where
  bad_request : Outcome
  redirect_301 : Text → Outcome
  inner : Outcome

unfoldable pub peer_is_https : Option IpAddr → HeaderMap → Bool
peer_is_https none headers = false
peer_is_https (some ip) headers = is_https ip headers

unfoldable pub canonicalized : Option Text → PathLookupResult → Option Text
canonicalized query (canonical page) = none
canonicalized query (redirect canonical_path) = some (append_query canonical_path query)
canonicalized query not_found = none

-- The outer `none` is a panic of `resolve_path`.
unfoldable pub canonicalize_url :
    (Text → ℕ → Text → Text) → Text → Option Text → Option (Option Text)
canonicalize_url unicode_lower path query = do
  r ← resolve_path unicode_lower path
  some (canonicalized query r)

-- Step 3 and the call of the inner service.
unfoldable pub finish : Bool → Text → Option Text → Outcome
finish https host none = inner
finish https host (some canonical_path) =
    redirect_301 (build_redirect_url https host canonical_path none)

-- The crate `http`: the host of an `Authority`, and `none` for a text that is no authority.
module _ (unicode_lower : Text → ℕ → Text → Text) (authority_host : Text → Option Text) where
  unfoldable pub host_name : Text → Option Text
  host_name host_header = Option.map (to_lowercase unicode_lower) (authority_host host_header)

  unfoldable pub call : Request → Option Outcome
  call req =
      let host = or_empty (header_str "host" req.headers) in
      let host_without_port = or_empty (host_name host) in
      let https = peer_is_https req.connection_ip req.headers in
      let is_dev = is_dev_host host in
      if is_empty host || is_empty host_without_port
      then some bad_request
      else if not is_dev && not (text_eq host_without_port master_host)
      then some
          (redirect_301 (build_redirect_url (force_https || https) master_host req.path req.query))
      else if force_https && not https && not is_dev
      then some (redirect_301 (build_redirect_url true host_without_port req.path req.query))
      else (do
        url ← canonicalize_url unicode_lower req.path req.query
        some (finish https host url))
