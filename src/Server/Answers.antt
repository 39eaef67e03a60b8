-- ===== src/Server/Answers.antt =====
-- What the handlers of src/main.rs answer, and when they count a hit.
use crackstation_rust.Base.{true, false, Option, none, some, Text, codes, ◌≡◌, refl, ◌>>=◌}
use crackstation_rust.Http.{IpAddr, Method, is_post, Response}
use crackstation_rust.Util.{client_ip}
use crackstation_rust.Registry.Pages.{Handler, PageInfo, accepts_post}
use crackstation_rust.Registry.Resolve.{canonical, hit_counter_id, resolve_path}
use crackstation_rust.Home as Form
use crackstation_rust.Home.Panics.{FailsOn, post-none}
use crackstation_rust.Home.Submissions.{raw_of}
use crackstation_rust.Middleware.UrlCanonicalization.{Request, redirect_301, inner, call}
use crackstation_rust.Middleware.BufferBody.{next, buffer_body_middleware}
use crackstation_rust.Csrf.{ok, check_origin}
use crackstation_rust.Dispatcher.{
  PageContext, Reply, bad_request, render_not_found, method_not_allowed, cross_origin_rejected,
  call_get, call_post, user_agent_of,
}
use crackstation_rust.Dispatcher.Dispatch.{is_routed, Explains, Replies, handle-Replies}
use crackstation_rust.Dispatcher.Unsupported.{IsRefusal, handle_unsupported_method-Refuses}
use crackstation_rust.Server.Outside.{Environment, form}
use crackstation_rust.Server.{
  Handled, form_context, post_page, respond, answer_of, call_handle, call_unsupported,
}

module _ {Body Store HitCounts : Type 0} (o : Environment Body Store HitCounts) where
  -- The address that a hit is counted under.
  abbrev pub client : IpAddr → Request → Text
  client ip req = o.show_ip (client_ip o.parse_ip ip req.headers)

  -- The state behind the hit of a request on a page.
  abbrev pub counted_hit : IpAddr → Request → PageInfo → Store → Store
  counted_hit ip req page store =
      (o.record_and_get_hits (hit_counter_id page) (client ip req) (user_agent_of req) store).1

  -- A state is left alone but for one hit: of a GET or a HEAD of a page, or of a submission of the
  -- form that comes from this site.
  pub data Effect (method : Method) (req : Request) (ip : IpAddr) (store : Store)
      : Store → Type 0 where
    untouched : Effect method req ip store store
    viewed :
        (page : PageInfo)
        → is_post method ≡ false
        → resolve_path o.unicode_lower req.path ≡ some (canonical page)
        → Effect method req ip store (counted_hit ip req page store)
    submitted :
        (page : PageInfo)
        → is_post method ≡ true
        → req.path ≡ codes "/"
        → check_origin o.unicode_lower o.authority_host req.headers ≡ ok
        → Effect method req ip store (counted_hit ip req page store)

  -- What makes a request panic: it is a submission of the form whose body is read and whose own
  -- hashes the oracle fails on; or a redirect by the layer of URLs to what is no header value.
  pub data Panics (method : Method) (req : Request) (sent : Body) : Type 0 where
    lookup_failed :
        (bytes : Text)
        → is_post method ≡ true
        → req.path ≡ codes "/"
        → check_origin o.unicode_lower o.authority_host req.headers ≡ ok
        → buffer_body_middleware Body o.to_bytes o.unicode_lower method req.path req.headers sent
          ≡ some (next (some bytes))
        → FailsOn o.oracle (raw_of o.parse_form o.sha256_hex o.send o.parse_json bytes)
        → Panics method req sent
    unsendable :
        (url : Text)
        → call o.unicode_lower o.authority_host req ≡ some (redirect_301 url)
        → o.is_header_value url ≡ false
        → Panics method req sent

  -- There is a response, or a reason for a panic.
  abbrev pub IsAnswered : Type 0 → Option Response → Type 0
  IsAnswered reason none = reason
  IsAnswered reason (some response) = Unit

  IsAnswered-of_page :
      (ctx : PageContext HitCounts) (page : Option Form.HomePage) (reason : Type 0)
      → (page ≡ none → reason)
      → IsAnswered reason (do p ← page; some (o.render (form p ctx)))
  IsAnswered-of_page ctx none reason h = h refl
  IsAnswered-of_page ctx (some page) reason h = _

  abbrev FailsIn : Text → Type 0
  FailsIn bytes = FailsOn o.oracle (raw_of o.parse_form o.sha256_hex o.send o.parse_json bytes)

  post_page-IsAnswered :
      (reason : Type 0) (handler : Handler) (ctx : PageContext HitCounts) (bytes : Text)
      → accepts_post handler ≡ true
      → (FailsIn bytes → reason)
      → IsAnswered reason (post_page o handler ctx bytes)
  unfolding post_page accepts_post
  post_page-IsAnswered reason Handler.home ctx bytes e why =
      IsAnswered-of_page ctx _ reason (λ panics. why (
        post-none o.parse_form o.sha256_hex o.send o.parse_json o.codec o.oracle
          (form_context o ctx) bytes panics))
  post_page-IsAnswered reason Handler.hashing_security ctx bytes e why = cc
  post_page-IsAnswered reason Handler.about ctx bytes e why = cc
  post_page-IsAnswered reason Handler.wordlist ctx bytes e why = cc
  post_page-IsAnswered reason Handler.legal_privacy ctx bytes e why = cc
  post_page-IsAnswered reason Handler.not_found ctx bytes e why = cc

  -- What the answer to a request is: a response, unless there is a reason to panic, and the state
  -- behind it.
  abbrev pub Serves : Method → Request → IpAddr → Body → Store → Handled Store → Type 0
  Serves method req ip sent store (response, after) =
      IsAnswered (Panics method req sent) response × Effect method req ip store after

  -- The layer of bodies has handed on the body of a request.
  abbrev HandsOn : Method → Request → Body → Option Text → Type 0
  HandsOn method req sent body =
      buffer_body_middleware Body o.to_bytes o.unicode_lower method req.path req.headers sent
      ≡ some (next body)

  Serves-respond :
      (method : Method) (req : Request) (ip : IpAddr) (sent : Body) (body : Option Text)
      (store after : Store) (reply : Reply HitCounts)
      → HandsOn method req sent body
      → Explains o.unicode_lower o.authority_host o.parse_ip o.show_ip o.no_hits
          o.record_and_get_hits o.recaptcha_site_key method req
          (client ip req)
          body
          store
          reply
          after
      → Serves method req ip sent store (respond o reply, after)
  unfolding respond
  Serves-respond method req ip sent body store after bad_request on (_, e) = rw e (_, untouched)
  Serves-respond method req ip sent body store after (render_not_found ctx) on (_, e) =
      rw e (_, untouched)
  Serves-respond method req ip sent body store after (method_not_allowed allow) on (_, _, _, e) =
      rw e (_, untouched)
  Serves-respond method req ip sent body store after cross_origin_rejected on (_, _, _, e) =
      rw e (_, untouched)
  Serves-respond method req ip sent body store after (call_get handler ctx) on (p, found, _, e) =
      rw e (_, viewed ctx.page_info p found)
  Serves-respond method req ip sent body store after (call_post handler ctx bytes) on
        (p, root, ours, given, accepts, e) =
      rw e (
        post_page-IsAnswered (Panics method req sent) handler ctx bytes accepts
            (λ fails. lookup_failed bytes p root ours (rw given at on) fails),
        submitted ctx.page_info p root ours,
      )

  Serves-Replies :
      (method : Method) (req : Request) (ip : IpAddr) (sent : Body) (body : Option Text)
      (store : Store) (result : Option (Reply HitCounts × Store))
      → HandsOn method req sent body
      → Replies o.unicode_lower o.authority_host o.parse_ip o.show_ip o.no_hits
          o.record_and_get_hits o.recaptcha_site_key method req
          (client ip req)
          body
          store
          result
      → Serves method req ip sent store (answer_of o store result)
  Serves-Replies method req ip sent body store result on (reply, after, e, why) =
      rw e (Serves-respond method req ip sent body store after reply on why)

  -- The dispatcher behind the layers of URLs and of bodies.
  pub Serves-call_handle :
      (method : Method) (req : Request) (ip : IpAddr) (sent : Body) (body : Option Text)
      (store : Store)
      → req.connection_ip ≡ some ip
      → is_routed method ≡ true
      → call o.unicode_lower o.authority_host req ≡ some inner
      → buffer_body_middleware Body o.to_bytes o.unicode_lower method req.path req.headers sent
        ≡ some (next body)
      → Serves method req ip sent store (call_handle o method req body store)
  unfolding call_handle
  Serves-call_handle method req ip sent body store connected routed through passed_on =
      Serves-Replies method req ip sent body store _ passed_on (
        handle-Replies o.unicode_lower o.authority_host o.parse_ip o.show_ip o.no_hits
          o.record_and_get_hits o.recaptcha_site_key o.to_bytes method req ip sent body store
          connected routed through passed_on)

  refused_response :
      (reason : Type 0) (path : Text) (reply : Reply HitCounts)
      → IsRefusal o.unicode_lower o.authority_host o.parse_ip o.show_ip o.no_hits
          o.record_and_get_hits o.recaptcha_site_key path reply
      → IsAnswered reason (do response ← respond o reply; some (o.after_fallback response))
  unfolding respond
  refused_response reason path (render_not_found ctx) h = _
  refused_response reason path (method_not_allowed allow) h = _
  refused_response reason path bad_request h = absurd h
  refused_response reason path cross_origin_rejected h = absurd h
  refused_response reason path (call_get handler ctx) h = absurd h
  refused_response reason path (call_post handler ctx bytes) h = absurd h

  pub IsAnswered-unsupported :
      (reason : Type 0) (req : Request) (ip : IpAddr)
      → req.connection_ip ≡ some ip
      → IsAnswered reason (call_unsupported o req)
  unfolding call_unsupported
  IsAnswered-unsupported reason req ip connected =
      let (reply, e, refusal) =
        handle_unsupported_method-Refuses o.unicode_lower o.authority_host o.parse_ip o.show_ip
          o.no_hits o.record_and_get_hits o.recaptcha_site_key ip req.headers req.path in
      rw (connected, e) (refused_response reason req.path reply refusal)
