-- ===== src/Middleware/UrlCanonicalization/Redirects.antt =====
-- Where url_canonicalization.rs sends a request, and that it stops sending it on.
use crackstation_rust.Base.{
  ℕ, Bool, true, false, ◌&&◌, ◌||◌, Option, none, some, ◌∷◌, ◌++◌, Text, codes, Lacks, text_eq,
  is_empty, Bool-cases, inl, inr, ◌>>=◌, ◌≡◌, ◌⊎◌, refl, sym, subst, ◌∙◌, arith,
}
use crackstation_rust.Registry.Pages.{PageInfo, to_lowercase}
use crackstation_rust.Registry.Resolve.{relative_url}
use crackstation_rust.Registry.Laws.{IsPath, IsServed}
use crackstation_rust.Middleware.UrlCanonicalization.{
  master_host, is_dev_host, or_empty, build_redirect_url, append_query, Request, Outcome,
  redirect_301, inner, peer_is_https, host_name, canonicalized, canonicalize_url, finish, call,
}
use crackstation_rust.Middleware.UrlCanonicalization.Urls.{
  build_redirect_url_unique, build_redirect_url-append_query, build_redirect_url_secure,
}
use crackstation_rust.Middleware.UrlCanonicalization.Ways.{
  host_of, NotRejected, Way, rejected, to_master, to_canonical, passed, Way_of_call,
}

abbrev pub is_secure : Request → Bool
is_secure req = peer_is_https req.connection_ip req.headers

-- The host and the path of a request have the form that a URL's have.
abbrev pub IsWebRequest : Request → Type 0
IsWebRequest req = Lacks b'/' (host_of req) × IsPath req.path

-- The request that a browser makes for a URL, as it arrives behind the proxy.
abbrev pub Follows : Text → Request → Type 0
Follows url req =
    IsWebRequest req × (url ≡ build_redirect_url (is_secure req) (host_of req) req.path req.query)

redirect_url-injective : {s t : Text} → redirect_301 s ≡ redirect_301 t → s ≡ t
redirect_url-injective h = cc

module _ (u : Text → ℕ → Text → Text) (authority_host : Text → Option Text) where
  abbrev name_of : Text → Option Text
  name_of = host_name u authority_host

  abbrev IsAccepted : Text → Bool → Type 0
  IsAccepted host secure =
      (is_dev_host host ≡ true) ⊎ ((name_of host ≡ some master_host) × (secure ≡ true))

  finish_served :
      (s : Request) (page : PageInfo)
      → IsServed u page
      → relative_url page ≡ s.path
      → (do url ← canonicalize_url u s.path s.query; some (finish (is_secure s) (host_of s) url))
        ≡ some inner
  unfolding canonicalize_url finish canonicalized
  finish_served s page served path = rw (← path, served.2) refl

  abbrev IsGood : Text → Type 0
  IsGood host = (is_empty host || is_empty (or_empty (name_of host))) ≡ false

  settled_dev :
      (s : Request) (page : PageInfo)
      → IsServed u page
      → NotRejected u authority_host s
      → is_dev_host (host_of s) ≡ true
      → relative_url page ≡ s.path
      → call u authority_host s ≡ some inner
  unfolding call
  settled_dev s page served good dev path = elim (Bool-cases (is_secure s)) [
    | inl secure ↦ rw (good, dev, secure) (rw secure at (finish_served s page served path))
    | inr plain ↦ rw (good, dev, plain) (rw plain at (finish_served s page served path))
  ]

  -- What a request to the canonical URL of a page meets.
  settled :
      (s : Request) (page : PageInfo)
      → IsServed u page
      → NotRejected u authority_host s
      → IsAccepted (host_of s) (is_secure s)
      → relative_url page ≡ s.path
      → call u authority_host s ≡ some inner
  unfolding call
  settled s page served good (inl dev) path = settled_dev s page served good dev path
  settled s page served good (inr (master, secure)) path =
      elim (Bool-cases (is_dev_host (host_of s))) [
        | inl dev ↦ settled_dev s page served good dev path
        | inr public ↦
            rw (good, public, master, secure) (rw secure at (finish_served s page served path))
      ]

  -- A redirect in a chain of requests to a site with its own parser of authorities.
  after_canonical :
      (r s : Request) (page : PageInfo)
      → IsWebRequest r
      → IsServed u page
      → NotRejected u authority_host r
      → (is_dev_host (host_of r) ≡ true)
        ⊎ ((name_of (host_of r) ≡ some master_host) × (is_secure r ≡ true))
      → Follows
          (build_redirect_url
            (is_secure r)
            (host_of r)
            (append_query (relative_url page) r.query)
            none)
          s
      → call u authority_host s ≡ some inner
  after_canonical r s page web served good reason (web', url) =
      let (secure, host, path, _) =
        build_redirect_url_unique (is_secure r) (is_secure s) (host_of r) (host_of s)
          (relative_url page) s.path r.query s.query web.0 web'.0 served.3 web'.1
          (sym (build_redirect_url-append_query _ (host_of r) (relative_url page) r.query) ∙ url) in
      settled s page served (subst (λ h. IsGood h) host good) (rw secure at (rw host at reason))
        path

  module _ (parses : authority_host master_host ≡ some master_host) where
    name_of_master : name_of master_host ≡ some master_host
    unfolding host_name to_lowercase
    name_of_master = rw parses refl

    -- Behind a redirect to the master host, no second one to it.
    not_twice :
        (r s : Request)
        → IsWebRequest r
        → Follows (build_redirect_url true master_host r.path r.query) s
        → (text_eq (or_empty (name_of (host_of s))) master_host && is_secure s) ≡ false
        → ⊥
    not_twice r s web (web', url) h =
        let (secure, host, _, _) =
          build_redirect_url_unique true (is_secure s) master_host (host_of s) r.path s.path r.query
            s.query (omega arith) web'.0 web.1 web'.1 url in
        cc (rw (← host, ← secure, name_of_master) at h)

    second :
        (r s t : Request) (o : Outcome) (v : Text)
        → IsWebRequest r
        → Follows (build_redirect_url true master_host r.path r.query) s
        → o ≡ redirect_301 v
        → Way u authority_host s o
        → Follows v t
        → call u authority_host t ≡ some inner
    second r s t o v web follow e (rejected _) follow' = cc
    second r s t o v web follow e (to_master _ h) follow' = absurd (not_twice r s web follow h)
    second r s t o v web follow e (to_canonical page served good reason) follow' =
        after_canonical s t page follow.0 served good reason (rw (redirect_url-injective e) follow')
    second r s t o v web follow e (passed _ _) follow' = cc

    first :
        (r s t : Request) (o : Outcome) (w v : Text)
        → IsWebRequest r
        → o ≡ redirect_301 w
        → Way u authority_host r o
        → Follows w s
        → call u authority_host s ≡ some (redirect_301 v)
        → Follows v t
        → call u authority_host t ≡ some inner
    first r s t o w v web e (rejected _) follow again follow' = cc
    first r s t o w v web e (to_master _ _) follow again follow' =
        second r s t (redirect_301 v) v web (rw (redirect_url-injective e) follow) refl
          (Way_of_call u authority_host s again) follow'
    first r s t o w v web e (to_canonical page served good reason) follow again follow' = cc (
      after_canonical r s page web served good reason (rw (redirect_url-injective e) follow),
      again,
    )
    first r s t o w v web e (passed _ _) follow again follow' = cc

    -- Where the master host parses as itself, and the host has no slash and the path is one of a
    -- URL, a chain of redirects has two links at most: the request that follows the second redirect
    -- is handed to the inner service, whatever the host, the scheme and the path that it began with.
    pub call_settles :
        (r s t : Request) (w v : Text)
        → IsWebRequest r
        → call u authority_host r ≡ some (redirect_301 w)
        → Follows w s
        → call u authority_host s ≡ some (redirect_301 v)
        → Follows v t
        → call u authority_host t ≡ some inner
    call_settles r s t w v web start follow again follow' =
        first r s t (redirect_301 w) w v web refl (Way_of_call u authority_host r start) follow
          again follow'

    -- A URL of this site: the scheme, an authority whose host is the master host, a slash.
    abbrev pub IsHome : Text → Type 0
    IsHome url =
        (authority rest : Text) × (url ≡ codes "https://" ++ (authority ++ b'/' ∷ rest))
        × (name_of authority ≡ some master_host)

    IsHome-of_way :
        (r : Request) (o : Outcome) (url : Text)
        → IsPath r.path
        → is_dev_host (host_of r) ≡ false
        → o ≡ redirect_301 url
        → Way u authority_host r o
        → IsHome url
    IsHome-of_way r o url path public e (rejected _) = cc
    IsHome-of_way r o url path public e (to_master _ _) =
        let (rest, at_home) = build_redirect_url_secure master_host r.path r.query path in
        (master_host, rest, sym (redirect_url-injective e) ∙ at_home, name_of_master)
    IsHome-of_way r o url path public e (to_canonical page served good (inl dev)) = cc
    IsHome-of_way r o url path public e (to_canonical page served good (inr (master, secure))) =
        let (rest, at_home) =
          build_redirect_url_secure (host_of r) (relative_url page) r.query served.3 in
        let same : build_redirect_url (is_secure r) (host_of r) (relative_url page) r.query
            ≡ codes "https://" ++ (host_of r ++ b'/' ∷ rest) =
          rw secure at_home in
        (
          host_of r,
          rest,
          sym (redirect_url-injective e)
              ∙ build_redirect_url-append_query _ (host_of r) (relative_url page) r.query
              ∙ same,
          master,
        )
    IsHome-of_way r o url path public e (passed _ _) = cc

    -- Where the master host parses as itself, and the path begins with a slash and has no question
    -- mark: unless the `Host` header names a development host, a redirect leads to this site over
    -- HTTPS: the authority in the `Location` has the master host as its host, also where the raw
    -- header was copied into it.
    pub redirect-IsHome :
        (r : Request) (url : Text)
        → IsPath r.path
        → is_dev_host (host_of r) ≡ false
        → call u authority_host r ≡ some (redirect_301 url)
        → IsHome url
    redirect-IsHome r url path public h =
        IsHome-of_way r (redirect_301 url) url path public refl (Way_of_call u authority_host r h)
