-- ===== src/Server/Secrecy.antt =====
-- Every request to two servers of src/main.rs that differ in the oracle alone.
use crackstation_rust.Base.{
  ℕ, ◌<◌, Option, none, some, Text, codes, ltb, Bool-cases, ◌≡◌, ◌⊎◌, inl, inr, refl, ap, ◌∙◌,
  ◌>>=◌, arith,
}
use crackstation_rust.Http.{IpAddr, Method, get, head, post, other, Response}
use crackstation_rust.Cracking.Oracle.{CrackWithLimit}
use crackstation_rust.Middleware.UrlCanonicalization.{Request, inner, call, or_empty}
use crackstation_rust.Middleware.UrlCanonicalization as Urls
use crackstation_rust.Middleware.BufferBody.{next, payload_too_large, buffer_body_middleware}
use crackstation_rust.Middleware.BufferBody as Buffer
use crackstation_rust.Dispatcher.{
  Reply, bad_request, render_not_found, method_not_allowed, cross_origin_rejected, call_get,
  call_post,
}
use crackstation_rust.Dispatcher.Unsupported.{IsRefusal, handle_unsupported_method-Refuses}
use crackstation_rust.Server.Outside.{Environment}
use crackstation_rust.Server.Requests.{not_read}
use crackstation_rust.Server.{
  Handled, moved_permanently, max_concurrent_requests, respond, call_handle, call_unsupported,
  serve_asset, fallback_service, route, blocking_middleware, admit, after_buffering, buffer_layer,
  after_url_layer, url_layer, security_layer, catch_panic, serve,
}
use crackstation_rust.Server.Consulting.{with_oracle, Consults, Agrees, Agrees-call_handle}

module _ {Body Store HitCounts : Type 0} (o : Environment Body Store HitCounts)
    (oracle : CrackWithLimit) where
  Agrees-asset :
      (others : ℕ) (method : Method) (req : Request) (ip : IpAddr) (sent : Body) (store : Store)
      (found : Option Response)
      → Agrees o oracle others method req ip sent
          (call_handle o method req none store)
          (call_handle (with_oracle oracle o) method req none store)
      → Agrees o oracle others method req ip sent
          (serve_asset o method req store found)
          (serve_asset (with_oracle oracle o) method req store found)
  unfolding serve_asset
  Agrees-asset others method req ip sent store none h = h
  Agrees-asset others method req ip sent store (some response) h = inl refl

  refused-same :
      (path : Text) (reply : Reply HitCounts)
      → IsRefusal o.unicode_lower o.authority_host o.parse_ip o.show_ip o.no_hits
          o.record_and_get_hits o.recaptcha_site_key path reply
      → respond o reply ≡ respond (with_oracle oracle o) reply
  unfolding respond
  refused-same path (render_not_found ctx) h = refl
  refused-same path (method_not_allowed allow) h = refl
  refused-same path bad_request h = refl
  refused-same path cross_origin_rejected h = refl
  refused-same path (call_get handler ctx) h = absurd h
  refused-same path (call_post handler ctx bytes) h = absurd h

  unsupported-same :
      (req : Request) (ip : IpAddr)
      → req.connection_ip ≡ some ip
      → call_unsupported o req ≡ call_unsupported (with_oracle oracle o) req
  unfolding call_unsupported
  unsupported-same req ip connected =
      let (reply, e, refusal) =
        handle_unsupported_method-Refuses o.unicode_lower o.authority_host o.parse_ip o.show_ip
          o.no_hits o.record_and_get_hits o.recaptcha_site_key ip req.headers req.path in
      rw (connected, e)
        (ap (λ (r : Option Response). r >>= λ response. some (o.after_fallback response))
          (refused-same req.path reply refusal))

  blocking-same :
      (answer : Handled Store)
      → blocking_middleware o answer ≡ blocking_middleware (with_oracle oracle o) answer
  unfolding blocking_middleware
  blocking-same (none, store) = refl
  blocking-same (some response, store) = refl

  Agrees-blocking :
      (others : ℕ) (method : Method) (req : Request) (ip : IpAddr) (sent : Body)
      {a b : Handled Store}
      → Agrees o oracle others method req ip sent a b
      → Agrees o oracle others method req ip sent
          (blocking_middleware o a)
          (blocking_middleware (with_oracle oracle o) b)
  Agrees-blocking others method req ip sent (inl same) =
      inl (ap (blocking_middleware o) same ∙ blocking-same _)
  Agrees-blocking others method req ip sent (inr consults) = inr consults

  Agrees-fallback :
      (others : ℕ) (method : Method) (req : Request) (ip : IpAddr) (sent : Body)
      (body : Option Text) (store : Store)
      → others < max_concurrent_requests
      → req.connection_ip ≡ some ip
      → call o.unicode_lower o.authority_host req ≡ some inner
      → buffer_body_middleware Body o.to_bytes o.unicode_lower method req.path req.headers sent
        ≡ some (next body)
      → Agrees o oracle others method req ip sent
          (fallback_service o method req body store)
          (fallback_service (with_oracle oracle o) method req body store)
  unfolding fallback_service
  Agrees-fallback others get req ip sent body store room connected settled received =
      Agrees-asset others get req ip sent store _ (
        Agrees-call_handle o oracle others get req ip sent none store room connected settled
          (not_read o get req sent refl) refl)
  Agrees-fallback others head req ip sent body store room connected settled received =
      Agrees-asset others head req ip sent store _ (
        Agrees-call_handle o oracle others head req ip sent none store room connected settled
          (not_read o head req sent refl) refl)
  Agrees-fallback others post req ip sent body store room connected settled received =
      Agrees-call_handle o oracle others post req ip sent body store room connected settled received
        refl
  Agrees-fallback others other req ip sent body store room connected settled received =
      inl (ap (λ (r : Option Response). (r, store)) (unsupported-same req ip connected))

  Agrees-admit :
      (others : ℕ) (method : Method) (req : Request) (ip : IpAddr) (sent : Body)
      (body : Option Text) (store : Store)
      → req.connection_ip ≡ some ip
      → call o.unicode_lower o.authority_host req ≡ some inner
      → buffer_body_middleware Body o.to_bytes o.unicode_lower method req.path req.headers sent
        ≡ some (next body)
      → Agrees o oracle others method req ip sent
          (admit o others method req body store)
          (admit (with_oracle oracle o) others method req body store)
  unfolding admit route
  Agrees-admit others method req ip sent body store connected settled received =
      elim (Bool-cases (ltb others max_concurrent_requests)) [
        | inr full ↦ inl (rw full refl)
        | inl room ↦ elim (Bool-cases (o.is_nested (codes "/files") req.path)) [
          | inl file ↦ inl (rw (room, file) (blocking-same _))
          | inr page ↦
              rw (room, page)
                (Agrees-blocking others method req ip sent (
                  Agrees-fallback others method req ip sent body store (ground arith) connected
                    settled received))
        ]
      ]

  Agrees-buffering :
      (others : ℕ) (method : Method) (req : Request) (ip : IpAddr) (sent : Body) (store : Store)
      (outcome : Option Buffer.Outcome)
      → req.connection_ip ≡ some ip
      → call o.unicode_lower o.authority_host req ≡ some inner
      → buffer_body_middleware Body o.to_bytes o.unicode_lower method req.path req.headers sent
        ≡ outcome
      → Agrees o oracle others method req ip sent
          (after_buffering o others method req store outcome)
          (after_buffering (with_oracle oracle o) others method req store outcome)
  unfolding after_buffering
  Agrees-buffering others method req ip sent store none connected settled e = inl refl
  Agrees-buffering others method req ip sent store (some (next body)) connected settled e =
      Agrees-admit others method req ip sent body store connected settled e
  Agrees-buffering others method req ip sent store (some payload_too_large) connected settled e =
      inl refl
  Agrees-buffering others method req ip sent store (some Buffer.bad_request) connected settled e =
      inl refl

  Agrees-outcome :
      (others : ℕ) (method : Method) (req : Request) (ip : IpAddr) (sent : Body) (store : Store)
      (outcome : Option Urls.Outcome)
      → req.connection_ip ≡ some ip
      → call o.unicode_lower o.authority_host req ≡ outcome
      → Agrees o oracle others method req ip sent
          (after_url_layer o others method req sent store outcome)
          (after_url_layer (with_oracle oracle o) others method req sent store outcome)
  unfolding after_url_layer buffer_layer moved_permanently
  Agrees-outcome others method req ip sent store none connected e = inl refl
  Agrees-outcome others method req ip sent store (some Urls.bad_request) connected e = inl refl
  Agrees-outcome others method req ip sent store (some (Urls.redirect_301 url)) connected e =
      inl refl
  Agrees-outcome others method req ip sent store (some Urls.inner) connected e =
      Agrees-buffering others method req ip sent store _ connected e refl

  caught-same :
      (answer : Handled Store) → catch_panic o answer ≡ catch_panic (with_oracle oracle o) answer
  unfolding catch_panic
  caught-same (none, store) = refl
  caught-same (some response, store) = refl

  outermost-same :
      (req : Request) (answer : Handled Store)
      → catch_panic o (security_layer o req answer)
        ≡ catch_panic (with_oracle oracle o) (security_layer (with_oracle oracle o) req answer)
  unfolding security_layer
  outermost-same req (response, store) = caught-same _

  -- Two servers that differ in the oracle alone give a request with the address of its peer the same
  -- response, and leave the same state, unless all of this holds: the limit on concurrent requests
  -- is not reached; the request is a POST to `/`, from this site, that the layer of URLs passes on;
  -- its body is read whole; the captcha is bypassed by the header, or solved by the token in the
  -- body; and the body has 1 to 20 hashes.
  pub serve-Consults :
      (others : ℕ) (method : Method) (req : Request) (ip : IpAddr) (sent : Body) (store : Store)
      → req.connection_ip ≡ some ip
      → (serve o others method req sent store
          ≡ serve (with_oracle oracle o) others method req sent store)
        ⊎ Consults o others method req ip sent
  unfolding serve url_layer
  serve-Consults others method req ip sent store connected =
      elim (Agrees-outcome others method req ip sent store _ connected refl) [
        | inl same ↦ inl (
            ap (λ (a : Handled Store). catch_panic o (security_layer o req a)) same
            ∙ outermost-same req _)
        | inr consults ↦ inr consults
      ]
