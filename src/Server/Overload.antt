-- ===== src/Server/Overload.antt =====
-- The limit on concurrent requests of src/main.rs.
use crackstation_rust.Base.{true, ℕ, ◌≤◌, false, Option, none, some, ltb, ◌≡◌, ◌≢◌, refl, arith}
use crackstation_rust.Http.{Method, Response}
use crackstation_rust.Middleware.UrlCanonicalization.{Request, inner, call}
use crackstation_rust.Middleware.UrlCanonicalization as Urls
use crackstation_rust.Middleware.UrlCanonicalization.Ways.{Way-call}
use crackstation_rust.Middleware.BufferBody.{next, payload_too_large, buffer_body_middleware}
use crackstation_rust.Middleware.BufferBody as Buffer
use crackstation_rust.Middleware.SecurityHeaders.Effects.{add_security_headers-IsSecured}
use crackstation_rust.Server.Outside.{Environment}
use crackstation_rust.Server.Requests.{never_none}
use crackstation_rust.Server.{
  Handled, moved_permanently, max_concurrent_requests, admit, after_buffering, buffer_layer,
  after_url_layer, url_layer, security_layer, catch_panic, serve,
}

-- The statuses of the layers outside the limit, and that of a request that it sheds.
pub data IsEarly : ℕ → Type 0 where
  shed : IsEarly 503
  too_large : IsEarly 413
  unreadable : IsEarly 400
  moved : IsEarly 301

module _ {Body Store HitCounts : Type 0} (o : Environment Body Store HitCounts) where
  abbrev IsTurnedAway : Store → Handled Store → Type 0
  IsTurnedAway store (none, after) = ⊥
  IsTurnedAway store (some response, after) = IsEarly response.status × (after ≡ store)

  abbrev IsShort : Store → Response × Store → Type 0
  IsShort store (response, after) = IsEarly response.status × (after ≡ store)

  full :
      (others : ℕ) → max_concurrent_requests ≤ others → ltb others max_concurrent_requests ≡ false
  full others h = ground arith

  IsTurnedAway-buffering :
      (others : ℕ) (method : Method) (req : Request) (sent : Body) (store : Store)
      (outcome : Option Buffer.Outcome)
      → max_concurrent_requests ≤ others
      → outcome ≢ none
      → IsTurnedAway store (after_buffering o others method req store outcome)
  unfolding after_buffering admit
  IsTurnedAway-buffering others method req sent store none h some_of = some_of refl
  IsTurnedAway-buffering others method req sent store (some (next body)) h some_of =
      rw (full others h) (shed, refl)
  IsTurnedAway-buffering others method req sent store (some payload_too_large) h some_of =
      (too_large, refl)
  IsTurnedAway-buffering others method req sent store (some Buffer.bad_request) h some_of =
      (unreadable, refl)

  -- A redirect has a URL that is a header value.
  abbrev pub CanBeSent : Urls.Outcome → Type 0
  CanBeSent (Urls.redirect_301 url) = o.is_header_value url ≡ true
  CanBeSent _ = Unit

  IsTurnedAway-outcome :
      (others : ℕ) (method : Method) (req : Request) (sent : Body) (store : Store)
      (outcome : Urls.Outcome)
      → max_concurrent_requests ≤ others
      → CanBeSent outcome
      → IsTurnedAway store (after_url_layer o others method req sent store (some outcome))
  unfolding after_url_layer buffer_layer moved_permanently
  IsTurnedAway-outcome others method req sent store Urls.bad_request h sent_on = (unreadable, refl)
  IsTurnedAway-outcome others method req sent store (Urls.redirect_301 url) h sent_on =
      rw sent_on (moved, refl)
  IsTurnedAway-outcome others method req sent store Urls.inner h sent_on =
      IsTurnedAway-buffering others method req sent store _ h (never_none o method req sent)

  IsShort-secured :
      (req : Request) (store : Store) (answer : Handled Store)
      → IsTurnedAway store answer
      → IsShort store (catch_panic o (security_layer o req answer))
  unfolding catch_panic security_layer
  IsShort-secured req store (none, after) h = absurd h
  IsShort-secured req store (some response, after) (early, e) =
      let (secured, found, h) = add_security_headers-IsSecured o.unicode_lower req response in
      rw (found, h.0) (early, e)

  -- While the limit on concurrent requests is reached, no request is handled: it counts no hit, and
  -- it gets a 503, unless an outer layer answers it before, with a redirect or as too large or
  -- unreadable. What the layer of URLs redirects to must be a header value.
  pub serve-IsShort :
      (others : ℕ) (method : Method) (req : Request) (sent : Body) (store : Store)
      → max_concurrent_requests ≤ others
      → ((outcome : Urls.Outcome)
          → call o.unicode_lower o.authority_host req ≡ some outcome
          → CanBeSent outcome)
      → IsEarly (serve o others method req sent store).0.status
        × ((serve o others method req sent store).1 ≡ store)
  unfolding serve url_layer
  serve-IsShort others method req sent store h sendable =
      let (outcome, e, way) = Way-call o.unicode_lower o.authority_host req in
      rw e (
        IsShort-secured req store _
          (IsTurnedAway-outcome others method req sent store outcome h (sendable outcome e)))
