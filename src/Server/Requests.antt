-- ===== src/Server/Requests.antt =====
-- Every request to the server of src/main.rs, from the outermost layer in.
use crackstation_rust.Base.{
  ℕ, false, Option, none, some, Text, codes, ltb, Bool-cases, inl, inr, ◌≡◌, ◌≢◌, refl,
}
use crackstation_rust.Http.{IpAddr, Method, get, head, post, other, is_post, Response}
use crackstation_rust.Middleware.UrlCanonicalization.{Request, inner, call}
use crackstation_rust.Middleware.UrlCanonicalization as Urls
use crackstation_rust.Middleware.UrlCanonicalization.Ways.{Way-call}
use crackstation_rust.Middleware.BufferBody.{
  next, payload_too_large, will_consume_a_body, buffer_body_middleware,
}
use crackstation_rust.Middleware.BufferBody as Buffer
use crackstation_rust.Middleware.BufferBody.Reads.{will_consume_a_body_lem}
use crackstation_rust.Middleware.SecurityHeaders.Effects.{
  IsGuarded, add_security_headers_lem, add_security_headers-none,
}
use crackstation_rust.Server.Outside.{Environment}
use crackstation_rust.Server.Answers.{
  Effect, untouched, Panics, unsendable, Serves, Serves-call_handle, IsAnswered-unsupported,
}
use crackstation_rust.Server.{
  Handled, moved_permanently, max_concurrent_requests, text_response, serve_asset, call_handle,
  fallback_service, route, blocking_middleware, admit, after_buffering, buffer_layer,
  after_url_layer, url_layer, security_layer, catch_panic, serve,
}

module _ {Body Store HitCounts : Type 0} (o : Environment Body Store HitCounts) where
  Serves-asset :
      (method : Method) (req : Request) (ip : IpAddr) (sent : Body) (store : Store)
      (found : Option Response)
      → Serves o method req ip sent store (call_handle o method req none store)
      → Serves o method req ip sent store (serve_asset o method req store found)
  unfolding serve_asset
  Serves-asset method req ip sent store none h = h
  Serves-asset method req ip sent store (some response) h = (_, untouched)

  -- The layer of bodies reads no body but that of a POST.
  pub not_read :
      (method : Method) (req : Request) (sent : Body)
      → is_post method ≡ false
      → buffer_body_middleware Body o.to_bytes o.unicode_lower method req.path req.headers sent
        ≡ some (next none)
  unfolding buffer_body_middleware
  not_read method req sent h = rw (will_consume_a_body_lem o.unicode_lower req.path, h) refl

  Serves-fallback :
      (method : Method) (req : Request) (ip : IpAddr) (sent : Body) (body : Option Text)
      (store : Store)
      → req.connection_ip ≡ some ip
      → call o.unicode_lower o.authority_host req ≡ some inner
      → buffer_body_middleware Body o.to_bytes o.unicode_lower method req.path req.headers sent
        ≡ some (next body)
      → Serves o method req ip sent store (fallback_service o method req body store)
  unfolding fallback_service
  Serves-fallback get req ip sent body store connected through passed_on =
      Serves-asset get req ip sent store _ (
        Serves-call_handle o get req ip sent none store connected refl through
          (not_read get req sent refl))
  Serves-fallback head req ip sent body store connected through passed_on =
      Serves-asset head req ip sent store _ (
        Serves-call_handle o head req ip sent none store connected refl through
          (not_read head req sent refl))
  Serves-fallback post req ip sent body store connected through passed_on =
      Serves-call_handle o post req ip sent body store connected refl through passed_on
  Serves-fallback other req ip sent body store connected through passed_on =
      (IsAnswered-unsupported o _ req ip connected, untouched)

  Serves-blocking :
      (method : Method) (req : Request) (ip : IpAddr) (sent : Body) (store : Store)
      (answer : Handled Store)
      → Serves o method req ip sent store answer
      → Serves o method req ip sent store (blocking_middleware o answer)
  unfolding blocking_middleware
  Serves-blocking method req ip sent store (none, after) h = h
  Serves-blocking method req ip sent store (some response, after) h = h

  Serves-admit :
      (others : ℕ) (method : Method) (req : Request) (ip : IpAddr) (sent : Body)
      (body : Option Text) (store : Store)
      → req.connection_ip ≡ some ip
      → call o.unicode_lower o.authority_host req ≡ some inner
      → buffer_body_middleware Body o.to_bytes o.unicode_lower method req.path req.headers sent
        ≡ some (next body)
      → Serves o method req ip sent store (admit o others method req body store)
  unfolding admit route
  Serves-admit others method req ip sent body store connected through passed_on =
      elim (Bool-cases (ltb others max_concurrent_requests)) [
        | inr full ↦ rw full (_, untouched)
        | inl room ↦ rw room (
            Serves-blocking method req ip sent store _
              (elim (Bool-cases (o.is_nested (codes "/files") req.path)) [
                | inl file ↦ rw file (_, untouched)
                | inr page ↦
                    rw page
                      (Serves-fallback method req ip sent body store connected through passed_on)
              ]))
      ]

  pub never_none :
      (method : Method) (req : Request) (sent : Body)
      → buffer_body_middleware Body o.to_bytes o.unicode_lower method req.path req.headers sent
        ≢ none
  unfolding buffer_body_middleware
  never_none method req sent e = cc (rw (will_consume_a_body_lem o.unicode_lower req.path) at e)

  Serves-buffering :
      (others : ℕ) (method : Method) (req : Request) (ip : IpAddr) (sent : Body) (store : Store)
      (outcome : Option Buffer.Outcome)
      → req.connection_ip ≡ some ip
      → call o.unicode_lower o.authority_host req ≡ some inner
      → buffer_body_middleware Body o.to_bytes o.unicode_lower method req.path req.headers sent
        ≡ outcome
      → Serves o method req ip sent store (after_buffering o others method req store outcome)
  unfolding after_buffering
  Serves-buffering others method req ip sent store none connected through e =
      absurd (never_none method req sent e)
  Serves-buffering others method req ip sent store (some (next body)) connected through e =
      Serves-admit others method req ip sent body store connected through e
  Serves-buffering others method req ip sent store (some payload_too_large) connected through e =
      (_, untouched)
  Serves-buffering others method req ip sent store (some Buffer.bad_request) connected through e =
      (_, untouched)

  Serves-outcome :
      (others : ℕ) (method : Method) (req : Request) (ip : IpAddr) (sent : Body) (store : Store)
      (outcome : Urls.Outcome)
      → req.connection_ip ≡ some ip
      → call o.unicode_lower o.authority_host req ≡ some outcome
      → Serves o method req ip sent store
          (after_url_layer o others method req sent store (some outcome))
  unfolding after_url_layer buffer_layer moved_permanently
  Serves-outcome others method req ip sent store Urls.bad_request connected e = (_, untouched)
  Serves-outcome others method req ip sent store (Urls.redirect_301 url) connected e =
      elim (Bool-cases (o.is_header_value url)) [
        | inl sendable ↦ rw sendable (_, untouched)
        | inr bad ↦ rw bad (unsendable url e bad, untouched)
      ]
  Serves-outcome others method req ip sent store Urls.inner connected e =
      Serves-buffering others method req ip sent store _ connected e refl

  Serves-url_layer :
      (others : ℕ) (method : Method) (req : Request) (ip : IpAddr) (sent : Body) (store : Store)
      → req.connection_ip ≡ some ip
      → Serves o method req ip sent store (url_layer o others method req sent store)
  unfolding url_layer
  Serves-url_layer others method req ip sent store connected =
      let (outcome, e, way) = Way-call o.unicode_lower o.authority_host req in
      rw e (Serves-outcome others method req ip sent store outcome connected e)

  -- The answer inside the outermost layer: headers on every response; or a panic for a reason, which
  -- that layer turns into a 500 without them.
  pub data Served (method : Method) (req : Request) (sent : Body) : Response → Type 0 where
    safely :
        (before : Response) {after : Response}
        → IsGuarded req before after
        → Served method req sent after
    failed : Panics o method req sent → Served method req sent (text_response 500)

  abbrev Completes : Method → Request → IpAddr → Body → Store → Response × Store → Type 0
  Completes method req ip sent store (response, after) =
      Served method req sent response × Effect o method req ip store after

  Completes-security_layer :
      (method : Method) (req : Request) (ip : IpAddr) (sent : Body) (store : Store)
      (answer : Handled Store)
      → Serves o method req ip sent store answer
      → Completes method req ip sent store (catch_panic o (security_layer o req answer))
  unfolding security_layer catch_panic
  Completes-security_layer method req ip sent store (none, after) (panics, effect) =
      rw (add_security_headers-none o.unicode_lower req) (failed panics, effect)
  Completes-security_layer method req ip sent store (some response, after) (_, effect) =
      let (secured, e, h) = add_security_headers_lem o.unicode_lower req response in
      rw e (safely response h, effect)

  -- Over a hit counter that does not panic, every request with the address of its peer is answered,
  -- whatever the load: with the headers of the outermost layer but one on the response, whichever
  -- layer, file, page or error it comes from; or with a bare 500, but that only where the request is
  -- a submission of the form from this site on whose own hashes the oracle fails, or where the layer
  -- of URLs redirects it to a URL that is no header value.
  pub serve-Served :
      (others : ℕ) (method : Method) (req : Request) (ip : IpAddr) (sent : Body) (store : Store)
      → req.connection_ip ≡ some ip
      → Served method req sent (serve o others method req sent store).0
  unfolding serve
  serve-Served others method req ip sent store connected =
      (Completes-security_layer method req ip sent store _
        (Serves-url_layer others method req ip sent store connected)).0

  -- A request with the address of its peer leaves the state alone but for one hit at most: that of a
  -- GET or a HEAD of a registered page, or of a POST to `/` that comes from this site.
  pub serve-Effect :
      (others : ℕ) (method : Method) (req : Request) (ip : IpAddr) (sent : Body) (store : Store)
      → req.connection_ip ≡ some ip
      → Effect o method req ip store (serve o others method req sent store).1
  unfolding serve
  serve-Effect others method req ip sent store connected =
      (Completes-security_layer method req ip sent store _
        (Serves-url_layer others method req ip sent store connected)).1
