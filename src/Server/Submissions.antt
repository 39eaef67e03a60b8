-- ===== src/Server/Submissions.antt =====
-- What a submission of the form gets from the server of src/main.rs.
use crackstation_rust.Base.{
  ℕ, ◌<◌, true, false, Option, none, some, Text, codes, text_eq, ltb, ◌≡◌, refl, sym, ◌∙◌, subst,
  ◌>>=◌, arith,
}
use crackstation_rust.Http.{IpAddr, post, Response}
use crackstation_rust.Registry.Pages.{Handler, home_page}
use crackstation_rust.Registry.Home.{resolve_home}
use crackstation_rust.Home as Form
use crackstation_rust.Middleware.UrlCanonicalization.{Request, inner, call}
use crackstation_rust.Middleware.UrlCanonicalization.Ways.{Way_of_call}
use crackstation_rust.Middleware.SecurityHeaders.{wants_hsts}
use crackstation_rust.Middleware.SecurityHeaders.Effects.{
  IsSecured, add_security_headers-IsSecured, add_security_headers-none,
}
use crackstation_rust.Middleware.BufferBody.{next, buffer_body_middleware}
use crackstation_rust.Csrf.{ok, check_origin}
use crackstation_rust.Dispatcher.{
  Reply, bad_request, render_not_found, method_not_allowed, cross_origin_rejected, call_get,
  call_post,
}
use crackstation_rust.Dispatcher.Dispatch.{Explains, Replies, handle-Replies}
use crackstation_rust.Dispatcher.Contexts.{IsOurs, Ours, Ours-handle}
use crackstation_rust.Server.Outside.{Environment, form}
use crackstation_rust.Server.Answers.{client, counted_hit}
use crackstation_rust.Server.Consulting.{submission_context}
use crackstation_rust.Server.Views.{view, host_given}
use crackstation_rust.Server.{
  Handled, max_concurrent_requests, text_response, post_page, respond, answer_of, call_handle,
  fallback_service, route, blocking_middleware, admit, after_buffering, buffer_layer,
  after_url_layer, url_layer, security_layer, catch_panic, serve,
}

module _ {Body Store HitCounts : Type 0} (o : Environment Body Store HitCounts) where
  -- What the handler of the form makes of a submission.
  abbrev pub outcome : IpAddr → Request → Text → Option Form.HomePage
  outcome ip req bytes =
      Form.post o.parse_form o.sha256_hex o.send o.parse_json o.codec o.oracle
        (submission_context o ip req) bytes

  -- The response to a submission: the page that the handler makes, in the context of the request and
  -- with the headers of the layers; or a bare 500, where the handler panics.
  pub data Posted (req : Request) (ip : IpAddr) (bytes : Text) (store : Store)
      : Response → Type 0 where
    answered :
        (page : Form.HomePage) {response : Response}
        → outcome ip req bytes ≡ some page
        → IsSecured
            (text_eq req.path (codes "/"))
            (wants_hsts req)
            (o.render (form page (view o ip req home_page store)))
            response
        → Posted req ip bytes store response
    panicked : outcome ip req bytes ≡ none → Posted req ip bytes store (text_response 500)

  abbrev Gets : Request → IpAddr → Text → Store → Response × Store → Type 0
  Gets req ip bytes store (response, after) =
      Posted req ip bytes store response × (after ≡ counted_hit o ip req home_page store)

  blocking-eq : (answer : Handled Store) → blocking_middleware o answer ≡ answer
  unfolding blocking_middleware
  blocking-eq (none, after) = refl
  blocking-eq (some response, after) = refl

  module _ (req : Request) (ip : IpAddr) (bytes : Text) (sent : Body) (store : Store)
      (connected : req.connection_ip ≡ some ip) (root : req.path ≡ codes "/")
      (settled : call o.unicode_lower o.authority_host req ≡ some inner)
      (ours : check_origin o.unicode_lower o.authority_host req.headers ≡ ok)
      (received : buffer_body_middleware Body o.to_bytes o.unicode_lower post req.path req.headers
          sent
        ≡ some (next (some bytes))) where
    abbrev posted : Handled Store
    posted = (
      post_page o Handler.home (view o ip req home_page store) bytes,
      counted_hit o ip req home_page store,
    )

    Posts-reply :
        (reply : Reply HitCounts) (after : Store)
        → Explains o.unicode_lower o.authority_host o.parse_ip o.show_ip o.no_hits
            o.record_and_get_hits o.recaptcha_site_key post req
            (client o ip req)
            (some bytes)
            store
            reply
            after
        → IsOurs o.unicode_lower o.authority_host o.parse_ip o.show_ip o.no_hits
            o.record_and_get_hits o.recaptcha_site_key
            (client o ip req)
            req
            store
            reply
        → ◌≡◌ {A = Handled Store} (respond o reply, after) posted
    unfolding respond
    Posts-reply bad_request after (absent, _) call =
        cc (host_given o req (Way_of_call o.unicode_lower o.authority_host req settled) refl)
    Posts-reply (render_not_found ctx) after (missing, _) call =
        cc (resolve_home o.unicode_lower req.path root)
    Posts-reply (method_not_allowed allow) after (_, elsewhere, _, _) call =
        cc (rw root at elsewhere)
    Posts-reply cross_origin_rejected after (_, _, foreign, _) call = absurd (foreign ours)
    Posts-reply (call_get handler ctx) after (viewing, _, _, _) call = cc
    Posts-reply (call_post handler ctx bytes') after (_, _, _, given, _, e) (same, handled, found) =
        cc (resolve_home o.unicode_lower req.path root)

    Posts-Replies :
        (result : Option (Reply HitCounts × Store))
        → Replies o.unicode_lower o.authority_host o.parse_ip o.show_ip o.no_hits
            o.record_and_get_hits o.recaptcha_site_key post req
            (client o ip req)
            (some bytes)
            store
            result
        → Ours o.unicode_lower o.authority_host o.parse_ip o.show_ip o.no_hits o.record_and_get_hits
            o.recaptcha_site_key
            (client o ip req)
            req
            store
            result
        → answer_of o store result ≡ posted
    Posts-Replies result (reply, after, e, why) call = rw e (
        Posts-reply reply after why (
          subst
            (Ours o.unicode_lower o.authority_host o.parse_ip o.show_ip o.no_hits
              o.record_and_get_hits o.recaptcha_site_key (client o ip req) req store)
            e call))

    Posts-call_handle : call_handle o post req (some bytes) store ≡ posted
    unfolding call_handle
    Posts-call_handle =
        Posts-Replies _
          (handle-Replies o.unicode_lower o.authority_host o.parse_ip o.show_ip o.no_hits
            o.record_and_get_hits o.recaptcha_site_key o.to_bytes post req ip sent (some bytes)
            store connected refl settled received)
          (Ours-handle o.unicode_lower o.authority_host o.parse_ip o.show_ip o.no_hits
            o.record_and_get_hits o.recaptcha_site_key post req ip (some bytes) store connected)

    posted-Gets :
        (page : Option Form.HomePage)
        → outcome ip req bytes ≡ page
        → Gets req ip bytes store (
            catch_panic o (
              security_layer o req (
                page >>= λ p. some (o.render (form p (view o ip req home_page store))),
                counted_hit o ip req home_page store,
              )))
    unfolding catch_panic security_layer
    posted-Gets none e = rw (add_security_headers-none o.unicode_lower req) (panicked e, refl)
    posted-Gets (some page) e =
        let (secured, found, h) =
          add_security_headers-IsSecured o.unicode_lower req
            (o.render (form page (view o ip req home_page store))) in
        rw found (answered page e h, refl)

    module _ (others : ℕ) (room : others < max_concurrent_requests)
        (apart : o.is_nested (codes "/files") req.path ≡ false) where
      Posts-url_layer : url_layer o others post req sent store ≡ posted
      unfolding url_layer after_url_layer buffer_layer after_buffering admit route fallback_service
      Posts-url_layer =
          let admitted : ltb others max_concurrent_requests ≡ true = ground arith in
          rw (settled, received, admitted, apart) (blocking-eq _ ∙ Posts-call_handle)

      -- A POST to `/` from this site, which the layer of URLs passes on and whose body is read, while
      -- the limit on concurrent requests is not reached: the response is the page that the handler of
      -- the form makes of the body and of the client's address and headers, with the headers of the
      -- layers on it, or a bare 500 where that handler panics; and one hit of the home page is
      -- counted, also where it panics.
      pub serve-Posts :
          Posted req ip bytes store (serve o others post req sent store).0
          × ((serve o others post req sent store).1 ≡ counted_hit o ip req home_page store)
      unfolding serve post_page
      serve-Posts =
          subst (λ a. Gets req ip bytes store (catch_panic o (security_layer o req a)))
            (sym Posts-url_layer) (posted-Gets _ refl)
