-- ===== src/Middleware/SecurityHeaders/Effects.antt =====
-- What the layer of security_headers.rs leaves in a response.
use crackstation_rust.Base.{
  ℕ, ap, ◌∙◌, ◌↔◌, not, ◌&&◌, Option-cases, Bool, true, false, Option, none, some, [], ◌∷◌, List,
  String, Text, codes, text_eq, text_eq_sound, ◌==◌, Bool-cases, inl, inr, ◌≡◌, refl, if◌then◌else◌,
}
use crackstation_rust.Util.{is_trusted_proxy, is_https}
use crackstation_rust.Http.{
  HeaderMap, IpAddr, header_str, insert_header, remove_header, first_value, Response,
  method_not_allowed_status,
}
use crackstation_rust.Registry.Resolve.{
  PathLookupResult, canonical, redirect, not_found, resolve_path,
}
use crackstation_rust.Registry.Laws.{IsRight, resolve_path-IsRight}
use crackstation_rust.Registry.Home.{resolve_home, slug_of_canonical}
use crackstation_rust.Middleware.UrlCanonicalization.{
  Request, is_dev_host, peer_is_https, inner, call,
}
use crackstation_rust.Middleware.UrlCanonicalization.Ways.{host_of, Way, passed, Way_of_call}
use crackstation_rust.Middleware.SecurityHeaders.{
  forbids_caching, check_no_cache, content_security_policy, insert_always, insert_no_cache,
  drop_allow, hsts_value, insert_hsts, wants_hsts, secured, add_security_headers,
}

-- The headers that the layer may change.
abbrev touched : List String
touched =
    "content-security-policy" ∷ "referrer-policy" ∷ "x-content-type-options" ∷ "x-frame-options"
    ∷ "pragma" ∷ "expires" ∷ "cache-control" ∷ "allow" ∷ "strict-transport-security" ∷ []

-- What a response has under the layer: the four fixed headers; the two that depend on the page and
-- on the connection; `Allow` on a 405 alone.
abbrev pub IsSecured : Bool → Bool → Response → Response → Type 0
IsSecured uncached hsts before after =
    (after.status ≡ before.status)
    × (header_str "content-security-policy" after.headers ≡ some content_security_policy)
    × (header_str "x-frame-options" after.headers ≡ some (codes "SAMEORIGIN"))
    × (header_str "x-content-type-options" after.headers ≡ some (codes "nosniff"))
    × (header_str "referrer-policy" after.headers ≡ some (codes "strict-origin-when-cross-origin"))
    × (header_str "cache-control" after.headers ≡ (
        if uncached
        then some (codes "no-cache, no-store, must-revalidate")
        else header_str "cache-control" before.headers))
    × (header_str "strict-transport-security" after.headers
        ≡ (if hsts then some hsts_value else header_str "strict-transport-security" before.headers))
    × (after.headers "allow"
        ≡ (if before.status == method_not_allowed_status then before.headers "allow" else []))
    × (after.headers "content-type" ≡ before.headers "content-type")

secured_lem :
    (uncached hsts : Bool) (not_allowed : Bool) (response : Response)
    → (response.status == method_not_allowed_status) ≡ not_allowed
    → IsSecured uncached hsts response (secured uncached hsts response)
unfolding secured insert_always insert_no_cache drop_allow insert_hsts header_str insert_header
    remove_header first_value
secured_lem true true true r e = rw e (refl, refl, refl, refl, refl, refl, refl, refl, refl)
secured_lem true true false r e = rw e (refl, refl, refl, refl, refl, refl, refl, refl, refl)
secured_lem true false true r e = rw e (refl, refl, refl, refl, refl, refl, refl, refl, refl)
secured_lem true false false r e = rw e (refl, refl, refl, refl, refl, refl, refl, refl, refl)
secured_lem false true true r e = rw e (refl, refl, refl, refl, refl, refl, refl, refl, refl)
secured_lem false true false r e = rw e (refl, refl, refl, refl, refl, refl, refl, refl, refl)
secured_lem false false true r e = rw e (refl, refl, refl, refl, refl, refl, refl, refl, refl)
secured_lem false false false r e = rw e (refl, refl, refl, refl, refl, refl, refl, refl, refl)

-- A request that came over HTTPS, as a trusted proxy says, to a host that is no development host.
pub record IsPublicHttps (req : Request) : Type 0 where
  pub ip : IpAddr
  pub connected : req.connection_ip ≡ some ip
  pub proxied : is_trusted_proxy ip ≡ true
  pub secure : header_str "x-forwarded-proto" req.headers ≡ some (codes "https")
  pub public : is_dev_host (host_of req) ≡ false

-- A response under the layer, by its request.
abbrev pub IsGuarded : Request → Response → Response → Type 0
IsGuarded req before after =
    (hsts : Bool) × ((hsts ≡ true) ↔ IsPublicHttps req)
    × IsSecured (text_eq req.path (codes "/")) hsts before after

both_true : (a b : Bool) → a && not b ≡ true → (a ≡ true) × (b ≡ false)
both_true true true e = cc
both_true true false e = (refl, refl)
both_true false b e = cc

https_of :
    (ip : IpAddr) (headers : HeaderMap)
    → is_https ip headers ≡ true
    → (is_trusted_proxy ip ≡ true) × (header_str "x-forwarded-proto" headers ≡ some (codes "https"))
unfolding is_https
https_of ip headers e = elim (Bool-cases (is_trusted_proxy ip)) [
  | inr other ↦ cc (rw other at e)
  | inl proxy ↦ elim (Option-cases (header_str "x-forwarded-proto" headers)) [
    | inl unset ↦ cc (rw (proxy, unset) at e)
    | inr (value, found) ↦
        (proxy, found ∙ ap some (text_eq_sound value (codes "https") (rw (proxy, found) at e)))
  ]
]

peer_of :
    (peer : Option IpAddr) (headers : HeaderMap)
    → peer_is_https peer headers ≡ true
    → (ip : IpAddr) × (peer ≡ some ip) × (is_https ip headers ≡ true)
unfolding peer_is_https
peer_of none headers e = cc
peer_of (some ip) headers e = (ip, refl, e)

wants_hsts_iff : (req : Request) → (wants_hsts req ≡ true) ↔ IsPublicHttps req
unfolding wants_hsts peer_is_https is_https
wants_hsts_iff req = (
  λ e.
      let (secure, public) = both_true _ _ e in
      let (ip, connected, over) = peer_of req.connection_ip req.headers secure in
      let (proxied, proto) = https_of ip req.headers over in
      record { ip = ip; connected = connected; proxied = proxied; secure = proto; public = public },
  λ h. rw (h.connected, h.proxied, h.secure, h.public) refl,
)

module _ (u : Text → ℕ → Text → Text) where
  forbids_caching_lem :
      (path : Text) (r : PathLookupResult)
      → resolve_path u path ≡ some r
      → IsRight u path r
      → forbids_caching r ≡ text_eq path (codes "/")
  forbids_caching_lem path (canonical page) e (here, served) =
      rw (served.5) (slug_of_canonical u path page here)
  forbids_caching_lem path (redirect url) e h = elim (Bool-cases (text_eq path (codes "/"))) [
    | inl root ↦ cc (e, resolve_home u path (text_eq_sound path (codes "/") root))
    | inr away ↦ rw away refl
  ]
  forbids_caching_lem path not_found e h = elim (Bool-cases (text_eq path (codes "/"))) [
    | inl root ↦ cc (e, resolve_home u path (text_eq_sound path (codes "/") root))
    | inr away ↦ rw away refl
  ]

  check_no_cache_lem : (path : Text) → check_no_cache u path ≡ some (text_eq path (codes "/"))
  unfolding check_no_cache
  check_no_cache_lem path =
      let (r, e, right) = resolve_path-IsRight u path in
      rw e (rw (forbids_caching_lem path r e right) refl)

  pub add_security_headers-IsSecured :
      (req : Request) (response : Response)
      → (after : Response) × (add_security_headers u req (some response) ≡ some after)
        × IsSecured (text_eq req.path (codes "/")) (wants_hsts req) response after
  unfolding add_security_headers
  add_security_headers-IsSecured req response = rw (check_no_cache_lem req.path) (
    secured (text_eq req.path (codes "/")) (wants_hsts req) response,
    refl,
    secured_lem (text_eq req.path (codes "/")) (wants_hsts req) _ response refl,
  )

  -- Every response of the inner service leaves the layer with its status and its content type, with
  -- the four fixed headers, with the order not to cache it exactly if the path is `/`, with HSTS
  -- inserted exactly if the request came over HTTPS, by the word of a trusted proxy, to a host that
  -- is no development host, and with `Allow` only if its status is 405.
  pub add_security_headers_lem :
      (req : Request) (response : Response)
      → (after : Response) × (add_security_headers u req (some response) ≡ some after)
        × IsGuarded req response after
  add_security_headers_lem req response =
      let (after, e, h) = add_security_headers-IsSecured req response in
      (after, e, (wants_hsts req, wants_hsts_iff req, h))

  -- An inner service that panics takes the layer with it.
  pub add_security_headers-none : (req : Request) → add_security_headers u req none ≡ none
  unfolding add_security_headers
  add_security_headers-none req = rw (check_no_cache_lem req.path) refl

  wants_hsts_of_way :
      (authority_host : Text → Option Text) (req : Request)
      → is_dev_host (host_of req) ≡ false
      → Way u authority_host req inner
      → wants_hsts req ≡ true
  unfolding wants_hsts
  wants_hsts_of_way a req public (passed _ (inl dev)) = cc (public, dev)
  wants_hsts_of_way a req public (passed _ (inr (_, secure))) = rw (public, secure) refl

  -- The layers of URLs and of headers agree: a response that the program gives under a public host,
  -- where the first layer redirects no more, tells the browser to use HTTPS from then on.
  pub add_security_headers-hsts :
      (authority_host : Text → Option Text) (req : Request) (response : Response)
      → is_dev_host (host_of req) ≡ false
      → call u authority_host req ≡ some inner
      → (after : Response) × (add_security_headers u req (some response) ≡ some after)
        × (header_str "strict-transport-security" after.headers ≡ some hsts_value)
  add_security_headers-hsts a req response public through =
      let (after, e, secured) = add_security_headers-IsSecured req response in
      let wanted = wants_hsts_of_way a req public (Way_of_call u a req through) in
      (after, e, rw wanted at (secured.6))
