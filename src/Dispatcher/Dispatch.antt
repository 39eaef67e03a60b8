-- ===== src/Dispatcher/Dispatch.antt =====
-- What the dispatcher does with a request that the layers pass on, and that it does not panic.
use crackstation_rust.Base.{
  ℕ, Bool, true, false, Option, some, Text, codes, text_eq, text_eq_sound, is_empty,
  some_of_is_some, Bool-cases, ◌≡◌, ◌≢◌, inl, inr, refl, sym, subst, ◌∙◌, ◌>>=◌,
}
use crackstation_rust.Http.{IpAddr, Method, is_post, get, head, post, other}
use crackstation_rust.Util.{client_ip}
use crackstation_rust.Registry.Pages.{Handler, PageInfo, accepts_post, takes_post, allowed_methods}
use crackstation_rust.Registry.Resolve.{
  PathLookupResult, canonical, redirect, not_found, hit_counter_id, resolve_path,
}
use crackstation_rust.Registry.Laws.{IsRight, resolve_path-IsRight}
use crackstation_rust.Registry.Home.{slug_of_canonical}
use crackstation_rust.Middleware.UrlCanonicalization.{Request, inner, call}
use crackstation_rust.Middleware.UrlCanonicalization.Ways.{host_of, passed_not_redirected}
use crackstation_rust.Middleware.BufferBody.{next, buffer_body_middleware}
use crackstation_rust.Csrf.{ok, check_origin}
use crackstation_rust.Dispatcher.{
  Reply, bad_request, render_not_found, method_not_allowed, cross_origin_rejected, call_get,
  call_post, is_rejected, user_agent_of, dispatch, with_body, handle_page, handle_result, handle,
}
use crackstation_rust.Dispatcher.Checks.{body_of_submission, accepted_lem, rejected_lem}

-- The methods that the router sends to `handle`.
abbrev pub is_routed : Method → Bool
is_routed other = false
is_routed _ = true

module _ (u : Text → ℕ → Text → Text) (authority_host : Text → Option Text)
    (parse_ip : Text → Option IpAddr) (show_ip : IpAddr → Text) {Store HitCounts : Type 0}
    (no_hits : HitCounts) (record_and_get_hits : Text → Text → Text → Store → HitCounts × Store)
    (key : Text) where
  -- The state after the hit of a request on a page.
  abbrev pub hit : Request → Text → PageInfo → Store → Store
  hit req client page store =
      (record_and_get_hits (hit_counter_id page) client (user_agent_of req) store).1

  -- What a reply says of the request, and of the state behind it.
  abbrev pub Explains :
      Method → Request → Text → Option Text → Store → Reply HitCounts → Store → Type 0
  Explains method req client body store bad_request after =
      (is_empty (host_of req) ≡ true) × (after ≡ store)
  Explains method req client body store (render_not_found ctx) after =
      (resolve_path u req.path ≡ some not_found) × (after ≡ store)
  Explains method req client body store (method_not_allowed allow) after =
      (is_post method ≡ true)
      × (text_eq req.path (codes "/") ≡ false)
      × (allow ≡ codes "GET, HEAD")
      × (after ≡ store)
  Explains method req client body store cross_origin_rejected after =
      (is_post method ≡ true)
      × (req.path ≡ codes "/")
      × (check_origin u authority_host req.headers ≢ ok)
      × (after ≡ store)
  Explains method req client body store (call_get handler ctx) after =
      (is_post method ≡ false)
      × (resolve_path u req.path ≡ some (canonical ctx.page_info))
      × (ctx.page_info.handler ≡ some handler)
      × (after ≡ hit req client ctx.page_info store)
  Explains method req client body store (call_post handler ctx bytes) after =
      (is_post method ≡ true)
      × (req.path ≡ codes "/")
      × (check_origin u authority_host req.headers ≡ ok)
      × (body ≡ some bytes)
      × (accepts_post handler ≡ true)
      × (after ≡ hit req client ctx.page_info store)

  abbrev pub Replies :
      Method → Request → Text → Option Text → Store → Option (Reply HitCounts × Store) → Type 0
  Replies method req client body store result =
      (reply : Reply HitCounts) × (after : Store) × (result ≡ some (reply, after))
      × Explains method req client body store reply after

  abbrev page_of :
      Method
      → Request
      → Text
      → PageInfo
      → Handler
      → Option Text
      → Store
      → Option (Reply HitCounts × Store)
  page_of = handle_page u authority_host parse_ip show_ip no_hits record_and_get_hits key

  get-Replies :
      (method : Method) (req : Request) (client : Text) (page : PageInfo) (handler : Handler)
      (body : Option Text) (store : Store)
      → is_routed method ≡ true
      → is_post method ≡ false
      → resolve_path u req.path ≡ some (canonical page)
      → page.handler ≡ some handler
      → Replies method req client body store (page_of method req client page handler body store)
  unfolding handle_page with_body dispatch
  get-Replies get req client page handler body store r p found h =
      (_, _, refl, (refl, found, h, refl))
  get-Replies head req client page handler body store r p found h =
      (_, _, refl, (refl, found, h, refl))
  get-Replies post req client page handler body store r p found h = cc
  get-Replies other req client page handler body store r p found h = cc

  submission-Replies :
      (req : Request) (client : Text) (page : PageInfo) (handler : Handler) (bytes : Text)
      (store : Store)
      → accepts_post handler ≡ true
      → req.path ≡ codes "/"
      → Replies post req client
          (some bytes)
          store
          (page_of post req client page handler (some bytes) store)
  unfolding handle_page with_body dispatch
  submission-Replies req client page handler bytes store accepts root =
      elim (Bool-cases (is_rejected (check_origin u authority_host req.headers))) [
        | inl bad ↦ (
          cross_origin_rejected,
          store,
          rw (accepts, bad) refl,
          (refl, root, rejected_lem (check_origin u authority_host req.headers) bad, refl),
        )
        | inr good ↦
            rw (accepts, good)
              (
                _,
                _,
                refl,
                (
                  refl,
                  root,
                  accepted_lem (check_origin u authority_host req.headers) good,
                  refl,
                  accepts,
                  refl,
                ),
              )
      ]

  refused-Replies :
      (req : Request) (client : Text) (page : PageInfo) (handler : Handler) (body : Option Text)
      (store : Store)
      → accepts_post handler ≡ false
      → text_eq req.path (codes "/") ≡ false
      → Replies post req client body store (page_of post req client page handler body store)
  unfolding handle_page allowed_methods
  refused-Replies req client page handler body store refuses away =
      (method_not_allowed (codes "GET, HEAD"), store, rw refuses refl, (refl, away, refl, refl))

  canonical-Replies :
      {Body : Type 0} (to_bytes : Body → ℕ → Option Text) (method : Method) (req : Request)
      (client : Text) (page : PageInfo) (handler : Handler) (sent : Body) (body : Option Text)
      (store : Store)
      → is_routed method ≡ true
      → buffer_body_middleware Body to_bytes u method req.path req.headers sent ≡ some (next body)
      → resolve_path u req.path ≡ some (canonical page)
      → page.handler ≡ some handler
      → accepts_post handler ≡ text_eq req.path (codes "/")
      → Replies method req client body store (page_of method req client page handler body store)
  canonical-Replies t get req client page handler sent body store r passed_on found h accepts =
      get-Replies get req client page handler body store r refl found h
  canonical-Replies t head req client page handler sent body store r passed_on found h accepts =
      get-Replies head req client page handler body store r refl found h
  canonical-Replies t other req client page handler sent body store r passed_on found h accepts = cc
  canonical-Replies t post req client page handler sent body store r passed_on found h accepts =
      elim (Bool-cases (text_eq req.path (codes "/"))) [
        | inr away ↦ refused-Replies req client page handler body store (accepts ∙ away) away
        | inl root ↦
            let (bytes, e) = body_of_submission t u post req sent body refl root passed_on in
            rw e (
              submission-Replies req client page handler bytes store (accepts ∙ root)
                (text_eq_sound req.path (codes "/") root))
      ]

  result-Replies :
      {Body : Type 0} (to_bytes : Body → ℕ → Option Text) (method : Method) (req : Request)
      (client : Text) (sent : Body) (body : Option Text) (store : Store) (r : PathLookupResult)
      → is_routed method ≡ true
      → call u authority_host req ≡ some inner
      → buffer_body_middleware Body to_bytes u method req.path req.headers sent ≡ some (next body)
      → resolve_path u req.path ≡ some r
      → IsRight u req.path r
      → Replies method req client body store (
          handle_result u authority_host parse_ip show_ip no_hits record_and_get_hits key method req
            client body store r)
  unfolding handle_result
  result-Replies t method req client sent body store (canonical page) routed through passed_on found
        (here, served) =
      let (handler, h) = some_of_is_some page.handler (served.1) in
      let takes : takes_post page.handler ≡ text_eq req.path (codes "/") =
        served.4 ∙ slug_of_canonical u req.path page here in
      subst
        (λ o.
          Replies method req client body store
            (do handler ← o; page_of method req client page handler body store))
        (sym h)
        (canonical-Replies t method req client page handler sent body store routed passed_on found h
          (rw h at takes))
  result-Replies t method req client sent body store (redirect url) routed through passed_on found
        right =
      absurd (passed_not_redirected u authority_host req url through found)
  result-Replies t method req client sent body store not_found routed through passed_on found
        right =
      (_, store, refl, (found, refl))

  -- A GET, HEAD or POST with the address of its peer, which the layers of URLs and of bodies pass
  -- on, gets a reply from the dispatcher: no panic is reached. A POST to a page other than `/` gets
  -- the 405 that allows GET and HEAD; a POST to `/` is refused if it comes from another site, and
  -- else goes to a handler that takes it, with its body; a hit is recorded exactly where a handler
  -- is called.
  pub handle-Replies :
      {Body : Type 0} (to_bytes : Body → ℕ → Option Text) (method : Method) (req : Request)
      (ip : IpAddr) (sent : Body) (body : Option Text) (store : Store)
      → req.connection_ip ≡ some ip
      → is_routed method ≡ true
      → call u authority_host req ≡ some inner
      → buffer_body_middleware Body to_bytes u method req.path req.headers sent ≡ some (next body)
      → Replies method req (show_ip (client_ip parse_ip ip req.headers)) body store (
          handle u authority_host parse_ip show_ip no_hits record_and_get_hits key method req body
            store)
  unfolding handle handle_result handle_page with_body dispatch
  handle-Replies t method req ip sent body store connected routed through passed_on =
      let client = show_ip (client_ip parse_ip ip req.headers) in
      let (r, found, right) = resolve_path-IsRight u req.path in
      elim (Bool-cases (is_empty (host_of req))) [
        | inl missing ↦ rw (connected, missing) (bad_request, store, refl, (missing, refl))
        | inr given ↦
            rw (connected, given, found)
              (result-Replies t method req client sent body store r routed through passed_on found
                right)
      ]
