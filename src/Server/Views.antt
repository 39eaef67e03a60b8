-- ===== src/Server/Views.antt =====
-- What a visitor of a page gets from the server of src/main.rs.
use crackstation_rust.Base.{
  ℕ, ◌<◌, true, false, Option, none, some, Text, codes, text_eq, is_empty, ltb, ◌≡◌, refl, subst,
  arith,
}
use crackstation_rust.Http.{IpAddr, Method, get, head, post, other, is_post, Response}
use crackstation_rust.Registry.Pages.{Handler, PageInfo}
use crackstation_rust.Registry.Resolve.{canonical, resolve_path}
use crackstation_rust.Middleware.UrlCanonicalization.{Request, inner, call}
use crackstation_rust.Middleware.UrlCanonicalization as Urls
use crackstation_rust.Middleware.UrlCanonicalization.Ways.{Way, Way_of_call, host_of}
use crackstation_rust.Middleware.SecurityHeaders.{wants_hsts}
use crackstation_rust.Middleware.SecurityHeaders.Effects.{IsSecured, add_security_headers-IsSecured}
use crackstation_rust.Dispatcher.{
  PageContext, Reply, bad_request, render_not_found, method_not_allowed, cross_origin_rejected,
  call_get, call_post,
}
use crackstation_rust.Dispatcher.Dispatch.{is_routed, Explains, Replies, handle-Replies}
use crackstation_rust.Dispatcher.Contexts.{seen, IsOurs, Ours, Ours-handle}
use crackstation_rust.Server.Outside.{Environment}
use crackstation_rust.Server.Answers.{client, counted_hit}
use crackstation_rust.Server.Requests.{not_read}
use crackstation_rust.Server.{
  Handled, max_concurrent_requests, get_page, respond, answer_of, call_handle, serve_asset,
  fallback_service, route, blocking_middleware, admit, after_buffering, buffer_layer,
  after_url_layer, url_layer, security_layer, catch_panic, serve,
}

module _ {Body Store HitCounts : Type 0} (o : Environment Body Store HitCounts) where
  pub host_given :
      (req : Request) {outcome : Urls.Outcome}
      → Way o.unicode_lower o.authority_host req outcome
      → outcome ≡ inner
      → is_empty (host_of req) ≡ false
  host_given req (Way.rejected bad) e = cc
  host_given req (Way.to_master public away) e = cc
  host_given req (Way.to_canonical page served good reason) e = cc
  host_given req (Way.passed good reason) e = ground arith

  -- The context of a page, with the counts behind its hit.
  abbrev pub view : IpAddr → Request → PageInfo → Store → PageContext HitCounts
  view ip req page store =
      seen o.unicode_lower o.authority_host o.parse_ip o.show_ip o.no_hits o.record_and_get_hits
        o.recaptcha_site_key (client o ip req) req store page

  module _ (method : Method) (req : Request) (ip : IpAddr) (page : PageInfo) (handler : Handler)
      (sent : Body) (store : Store) (viewing : is_post method ≡ false)
      (connected : req.connection_ip ≡ some ip)
      (settled : call o.unicode_lower o.authority_host req ≡ some inner)
      (found : resolve_path o.unicode_lower req.path ≡ some (canonical page))
      (handled : page.handler ≡ some handler) where
    abbrev shown : Handled Store
    shown = (some (get_page o handler (view ip req page store)), counted_hit o ip req page store)

    Shows-reply :
        (body : Option Text) (reply : Reply HitCounts) (after : Store)
        → Explains o.unicode_lower o.authority_host o.parse_ip o.show_ip o.no_hits
            o.record_and_get_hits o.recaptcha_site_key method req
            (client o ip req)
            body
            store
            reply
            after
        → IsOurs o.unicode_lower o.authority_host o.parse_ip o.show_ip o.no_hits
            o.record_and_get_hits o.recaptcha_site_key
            (client o ip req)
            req
            store
            reply
        → ◌≡◌ {A = Handled Store} (respond o reply, after) shown
    unfolding respond
    Shows-reply body bad_request after (absent, _) ours =
        cc (host_given req (Way_of_call o.unicode_lower o.authority_host req settled) refl)
    Shows-reply body (render_not_found ctx) after (missing, _) ours = cc
    Shows-reply body (method_not_allowed allow) after (posted, _, _, _) ours = cc
    Shows-reply body cross_origin_rejected after (posted, _, _, _) ours = cc
    Shows-reply body (call_get handler' ctx) after (_, found', handled', e) (same, _, _) = cc
    Shows-reply body (call_post handler' ctx bytes) after (posted, _, _, _, _, _) ours = cc

    Shows-Replies :
        (result : Option (Reply HitCounts × Store))
        → Replies o.unicode_lower o.authority_host o.parse_ip o.show_ip o.no_hits
            o.record_and_get_hits o.recaptcha_site_key method req
            (client o ip req)
            none
            store
            result
        → Ours o.unicode_lower o.authority_host o.parse_ip o.show_ip o.no_hits o.record_and_get_hits
            o.recaptcha_site_key
            (client o ip req)
            req
            store
            result
        → answer_of o store result ≡ shown
    Shows-Replies result (reply, after, e, why) ours = rw e (
        Shows-reply none reply after why (
          subst
            (Ours o.unicode_lower o.authority_host o.parse_ip o.show_ip o.no_hits
              o.record_and_get_hits o.recaptcha_site_key (client o ip req) req store)
            e ours))

    Shows-call_handle : is_routed method ≡ true → call_handle o method req none store ≡ shown
    unfolding call_handle
    Shows-call_handle routed =
        Shows-Replies _
          (handle-Replies o.unicode_lower o.authority_host o.parse_ip o.show_ip o.no_hits
            o.record_and_get_hits o.recaptcha_site_key o.to_bytes method req ip sent none store
            connected routed settled (not_read o method req sent viewing))
          (Ours-handle o.unicode_lower o.authority_host o.parse_ip o.show_ip o.no_hits
            o.record_and_get_hits o.recaptcha_site_key method req ip none store connected)

    module _ (others : ℕ) (room : others < max_concurrent_requests)
        (apart : o.is_nested (codes "/files") req.path ≡ false)
        (no_asset : o.assets method req ≡ none) where
      Shows-asset :
          is_routed method ≡ true → serve_asset o method req store (o.assets method req) ≡ shown
      unfolding serve_asset
      Shows-asset routed = rw no_asset (Shows-call_handle routed)

      Shows-fallback :
          (m : Method)
          → method ≡ m
          → is_routed method ≡ true
          → fallback_service o m req none store ≡ shown
      unfolding fallback_service
      Shows-fallback get e routed =
          subst (λ k. serve_asset o k req store (o.assets k req) ≡ shown) e (Shows-asset routed)
      Shows-fallback head e routed =
          subst (λ k. serve_asset o k req store (o.assets k req) ≡ shown) e (Shows-asset routed)
      Shows-fallback post e routed = cc
      Shows-fallback other e routed = cc

      blocking_some :
          (answer : Handled Store) {response : Response} {after : Store}
          → answer ≡ (some response, after)
          → blocking_middleware o answer ≡ (some response, after)
      unfolding blocking_middleware
      blocking_some (none, after) e = cc
      blocking_some (some response, after) e = e

      Shows-url_layer : is_routed method ≡ true → url_layer o others method req sent store ≡ shown
      unfolding url_layer after_url_layer buffer_layer after_buffering admit route
      Shows-url_layer routed =
          let passed_on = not_read o method req sent viewing in
          let admitted : ltb others max_concurrent_requests ≡ true = ground arith in
          rw (settled, passed_on, admitted, apart)
            (blocking_some _ (Shows-fallback method refl routed))

      -- A GET or a HEAD of the canonical URL of a page, on a host where the layer of URLs redirects no
      -- more, while the limit on concurrent requests is not reached, and where no static file stands
      -- in the way: the response is the page that its handler renders, with the headers of the
      -- layers on it; it shows the counts behind this hit, and the hit is counted.
      pub serve-Shows :
          is_routed method ≡ true
          → IsSecured
              (text_eq req.path (codes "/"))
              (wants_hsts req)
              (get_page o handler (view ip req page store))
              (serve o others method req sent store).0
            × ((serve o others method req sent store).1 ≡ counted_hit o ip req page store)
      unfolding serve security_layer catch_panic
      serve-Shows routed =
          let (secured, e, h) =
            add_security_headers-IsSecured o.unicode_lower req
              (get_page o handler (view ip req page store)) in
          rw (Shows-url_layer routed, e) (h, refl)
