-- ===== src/Middleware/UrlCanonicalization/Ways.antt =====
-- The ways of a request through the layer of url_canonicalization.rs.

use crackstation_rust.Base.{
  ℕ, Bool, true, false, ◌&&◌, ◌||◌, Option, none, some, Text, text_eq, text_eq_sound, is_empty,
  Bool-cases, Option-cases, inl, inr, ◌>>=◌, ◌≡◌, ◌⊎◌, refl, sym, ap, subst, ◌∙◌, arith,
}
use crackstation_rust.Http.{header_str}
use crackstation_rust.Registry.Pages.{PageInfo}
use crackstation_rust.Registry.Resolve.{
  PathLookupResult, canonical, redirect, not_found, relative_url, resolve_path,
}
use crackstation_rust.Registry.Laws.{IsRight, IsServed, resolve_path-IsRight}
use crackstation_rust.Middleware.UrlCanonicalization.{
  master_host, is_dev_host, or_empty, build_redirect_url, append_query, Request, Outcome,
  bad_request, redirect_301, inner, peer_is_https, host_name, canonicalized, canonicalize_url,
  finish, call,
}

abbrev pub host_of : Request → Text
host_of req = or_empty (header_str "host" req.headers)

module _ (u : Text → ℕ → Text → Text) (authority_host : Text → Option Text) where
  abbrev pub NotRejected : Request → Type 0
  NotRejected req =
      (is_empty (host_of req) || is_empty (or_empty (host_name u authority_host (host_of req))))
      ≡ false

  -- The four ways of a request through the layer.
  pub data Way (req : Request) : Outcome → Type 0 where
    rejected :
        (is_empty (host_of req) || is_empty (or_empty (host_name u authority_host (host_of req))))
          ≡ true
        → Way req bad_request
    to_master :
        is_dev_host (host_of req) ≡ false
        → (text_eq (or_empty (host_name u authority_host (host_of req))) master_host
            && peer_is_https req.connection_ip req.headers)
          ≡ false
        → Way req (redirect_301 (build_redirect_url true master_host req.path req.query))
    to_canonical :
        (page : PageInfo)
        → IsServed u page
        → NotRejected req
        → (is_dev_host (host_of req) ≡ true)
          ⊎ ((host_name u authority_host (host_of req) ≡ some master_host)
              × (peer_is_https req.connection_ip req.headers ≡ true))
        → Way req (
            redirect_301 (
              build_redirect_url
                (peer_is_https req.connection_ip req.headers)
                (host_of req)
                (append_query (relative_url page) req.query)
                none))
    passed :
        NotRejected req
        → (is_dev_host (host_of req) ≡ true)
          ⊎ ((host_name u authority_host (host_of req) ≡ some master_host)
              × (peer_is_https req.connection_ip req.headers ≡ true))
        → Way req inner

  Way-finish :
      (req : Request)
      → NotRejected req
      → (is_dev_host (host_of req) ≡ true)
        ⊎ ((host_name u authority_host (host_of req) ≡ some master_host)
            × (peer_is_https req.connection_ip req.headers ≡ true))
      → (o : Outcome) × ((do
        url ← canonicalize_url u req.path req.query
        some (finish (peer_is_https req.connection_ip req.headers) (host_of req) url))
          ≡ some o)
        × Way req o
  unfolding canonicalize_url
  Way-finish req good reason =
      let (r, found, right) = resolve_path-IsRight u req.path in rw found (Way_of_result r right)
    where
      Way_of_result :
          (r : PathLookupResult)
          → IsRight u req.path r
          → (o : Outcome) × (◌≡◌ {A = Option Outcome}
              (some (
                finish
                  (peer_is_https req.connection_ip req.headers)
                  (host_of req)
                  (canonicalized req.query r)))
              (some o))
            × Way req o
      Way_of_result (canonical page) h =
          (inner, unfold finish canonicalized in refl, passed good reason)
      Way_of_result (redirect url) (_, (page, e, served)) = (
        redirect_301 (
            build_redirect_url (peer_is_https req.connection_ip req.headers) (host_of req)
              (append_query (relative_url page) req.query) none),
        unfold finish canonicalized in rw e refl,
        to_canonical page served good reason,
      )
      Way_of_result not_found h = (inner, unfold finish canonicalized in refl, passed good reason)

  and-false : (b : Bool) → (b && false) ≡ false
  and-false b = ground arith

  host_name_of_eq :
      (h : Text)
      → text_eq (or_empty (host_name u authority_host h)) master_host ≡ true
      → host_name u authority_host h ≡ some master_host
  host_name_of_eq h e = elim (Option-cases (host_name u authority_host h)) [
    | inl none_found ↦ cc (rw none_found at e)
    | inr (name, found) ↦ rw found (ap some (text_eq_sound name master_host (rw found at e)))
  ]

  -- The layer never panics.
  pub Way-call : (req : Request) → (o : Outcome) × (call u authority_host req ≡ some o) × Way req o
  unfolding call
  Way-call req =
      let host = host_of req in
      let name = or_empty (host_name u authority_host host) in
      let https = peer_is_https req.connection_ip req.headers in
      elim (Bool-cases (is_empty host || is_empty name)) [
        | inl bad ↦ (bad_request, rw bad refl, rejected bad)
        | inr good ↦ elim (Bool-cases (is_dev_host host)) [
          | inl dev ↦
              let (o, e, way) = Way-finish req good (inl dev) in
              elim (Bool-cases https) [
                | inl secure ↦ (o, rw (good, dev, secure) (rw secure at e), way)
                | inr plain ↦ (o, rw (good, dev, plain) (rw plain at e), way)
              ]
          | inr public ↦ elim (Bool-cases (text_eq name master_host)) [
            | inr foreign ↦ (
              redirect_301 (build_redirect_url true master_host req.path req.query),
              rw (good, public, foreign) refl,
              to_master public (rw foreign refl),
            )
            | inl master ↦ elim (Bool-cases https) [
              | inr plain ↦ (
                redirect_301 (build_redirect_url true master_host req.path req.query),
                rw (good, public, master, plain) (rw (text_eq_sound name master_host master) refl),
                to_master public (rw plain (and-false _)),
              )
              | inl secure ↦
                  let (o, e, way) =
                    Way-finish req good (inr (host_name_of_eq host master, secure)) in
                  (o, rw (good, public, master, secure) (rw secure at e), way)
            ]
          ]
        ]
      ]

  abbrev Taken : Request → Option Outcome → Type 0
  Taken req none = ⊥
  Taken req (some o) = Way req o

  pub Way_of_call : (req : Request) {o : Outcome} → call u authority_host req ≡ some o → Way req o
  Way_of_call req {o} h =
      let (o', e, way) = Way-call req in
      let same : some o' ≡ some o = sym e ∙ h in subst (λ x. Taken req x) same way

  -- A request that passes has no path that resolves to a redirect.
  pub passed_not_redirected :
      (req : Request) (url : Text)
      → call u authority_host req ≡ some inner
      → resolve_path u req.path ≡ some (redirect url)
      → ⊥
  unfolding call canonicalize_url finish canonicalized
  passed_not_redirected req url through found = ground (arith, found, through)
