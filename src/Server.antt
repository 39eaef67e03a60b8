-- ===== src/Server.antt =====
-- The router and the layers of src/main.rs over the dispatcher: from a request to its response.
pub mod Outside
pub mod Answers
pub mod Requests
pub mod Counting
pub mod Overload
pub mod Consulting
pub mod Secrecy
pub mod Views
pub mod Submissions
mod Tests
use crackstation_rust.Base.{
  ℕ, ◌/◌, Bool, true, false, ◌||◌, Option, none, some, [], ◌∷◌, Text, codes, text_eq, starts_with,
  is_empty, ltb, if◌then◌else◌, ◌>>=◌,
}
use crackstation_rust.Http.{
  insert_header, Method, get, head, post, other, Status, Response, method_not_allowed_status,
}
use crackstation_rust.Captcha.{is_test_site_key}
use crackstation_rust.Registry.Pages.{Handler, home}
use crackstation_rust.Home as Form
use crackstation_rust.Middleware.UrlCanonicalization.{Request, call}
use crackstation_rust.Middleware.UrlCanonicalization as Urls
use crackstation_rust.Middleware.BufferBody.{next, payload_too_large, buffer_body_middleware}
use crackstation_rust.Middleware.BufferBody as Buffer
use crackstation_rust.Middleware.SecurityHeaders.{add_security_headers}
use crackstation_rust.Dispatcher.{
  PageContext, Reply, bad_request, render_not_found, method_not_allowed, cross_origin_rejected,
  call_get, call_post, handle, handle_unsupported_method,
}
use crackstation_rust.Server.Outside.{Environment, Page, plain, form}

abbrev pub max_blocking_threads : ℕ
max_blocking_threads = 4096

abbrev pub max_concurrent_requests : ℕ
max_concurrent_requests = max_blocking_threads / 4

-- A response, or a panic (`none`); and the state behind it.
abbrev pub Handled : Type 0 → Type 0
Handled Store = Option Response × Store

-- `(status, text).into_response()`.
abbrev pub text_response : Status → Response
text_response status = record {
  status = status;
  headers = insert_header "content-type" (codes "text/plain; charset=utf-8") (λ name. []);
}

module _ {Body Store HitCounts : Type 0} (o : Environment Body Store HitCounts) where
  -- `redirect_301`; `none` is its panic.
  unfoldable pub moved_permanently : Text → Option Response
  moved_permanently url =
      if o.is_header_value url
      then some (record { status = 301; headers = insert_header "location" url (λ name. []) })
      else none

  abbrev not_found_page : PageContext HitCounts → Response
  not_found_page ctx = record (o.render (plain Handler.not_found ctx)) { status = 404 }

  -- `PageHandler::get` of each page.
  pub get_page : Handler → PageContext HitCounts → Response
  get_page Handler.home ctx = o.render (form Form.get ctx)
  get_page Handler.not_found ctx = not_found_page ctx
  get_page handler ctx = o.render (plain handler ctx)

  abbrev form_context : PageContext HitCounts → Form.Context
  form_context ctx = record {
    client_ip = ctx.client_ip;
    captcha_bypass_header = ctx.captcha_bypass_header;
    recaptcha_secret_key = o.recaptcha_secret_key;
    serves_test_site_key = is_test_site_key o.recaptcha_site_key;
  }

  -- `PageHandler::post`: the default is `unreachable!`.
  pub post_page : Handler → PageContext HitCounts → Text → Option Response
  post_page Handler.home ctx bytes = do
    page ←
        Form.post o.parse_form o.sha256_hex o.send o.parse_json o.codec o.oracle (form_context ctx)
          bytes
    some (o.render (form page ctx))
  post_page handler ctx bytes = none

  pub respond : Reply HitCounts → Option Response
  respond bad_request = some (text_response 400)
  respond (render_not_found ctx) = some (not_found_page ctx)
  respond (method_not_allowed allow) =
      let refused = text_response method_not_allowed_status in
      some (record refused { headers = insert_header "allow" allow refused.headers })
  respond cross_origin_rejected = some (text_response 403)
  respond (call_get handler ctx) = some (get_page handler ctx)
  respond (call_post handler ctx bytes) = post_page handler ctx bytes

  abbrev answer_of : Store → Option (Reply HitCounts × Store) → Handled Store
  answer_of store none = (none, store)
  answer_of store (some (reply, after)) = (respond reply, after)

  -- `handle` with the state of the program, up to the response. It panics before it counts a hit.
  pub call_handle : Method → Request → Option Text → Store → Handled Store
  call_handle method req post_body store = answer_of store (
      handle o.unicode_lower o.authority_host o.parse_ip o.show_ip o.no_hits o.record_and_get_hits
        o.recaptcha_site_key method req post_body store)

  -- `handle_unsupported_method` behind its extractors.
  pub call_unsupported : Request → Option Response
  call_unsupported req = elim req.connection_ip [
    | none ↦ some (o.after_fallback o.missing_connect_info)
    | some ip ↦ do
      reply ←
          handle_unsupported_method o.unicode_lower o.authority_host o.parse_ip o.show_ip o.no_hits
            o.record_and_get_hits o.recaptcha_site_key ip req.headers req.path
      response ← respond reply
      some (o.after_fallback response)
  ]

  -- A GET or a HEAD: `ServeDir` on the assets, whose fallback is `handle`.
  pub serve_asset : Method → Request → Store → Option Response → Handled Store
  serve_asset method req store (some response) = (some response, store)
  serve_asset method req store none = call_handle method req none store

  pub fallback_service : Method → Request → Option Text → Store → Handled Store
  fallback_service Method.get req body store = serve_asset get req store (o.assets get req)
  fallback_service Method.head req body store = serve_asset head req store (o.assets head req)
  fallback_service Method.post req body store = call_handle post req body store
  fallback_service Method.other req body store = (call_unsupported req, store)

  pub route : Method → Request → Option Text → Store → Handled Store
  route method req body store =
      if o.is_nested (codes "/files") req.path
      then (some (o.files method req), store)
      else fallback_service method req body store

  -- A panic on the pool is a `JoinError`, on which the layer panics.
  pub blocking_middleware : Handled Store → Handled Store
  blocking_middleware (none, store) = (none, store)
  blocking_middleware (some response, store) = (some response, store)

  -- The limit on concurrent requests, `LoadShed` and `HandleError`; `others` requests are within.
  pub admit : ℕ → Method → Request → Option Text → Store → Handled Store
  admit others method req body store =
      if ltb others max_concurrent_requests
      then blocking_middleware (route method req body store)
      else (some (record { status = 503; headers = λ name. [] }), store)

  pub after_buffering : ℕ → Method → Request → Store → Option Buffer.Outcome → Handled Store
  after_buffering others method req store none = (none, store)
  after_buffering others method req store (some (next body)) = admit others method req body store
  after_buffering others method req store (some payload_too_large) =
      (some (text_response 413), store)
  after_buffering others method req store (some Buffer.bad_request) =
      (some (text_response 400), store)

  pub buffer_layer : ℕ → Method → Request → Body → Store → Handled Store
  buffer_layer others method req sent store =
      after_buffering others method req store
        (buffer_body_middleware Body o.to_bytes o.unicode_lower method req.path req.headers sent)

  pub after_url_layer : ℕ → Method → Request → Body → Store → Option Urls.Outcome → Handled Store
  after_url_layer others method req sent store none = (none, store)
  after_url_layer others method req sent store (some Urls.bad_request) =
      (some (text_response 400), store)
  after_url_layer others method req sent store (some (Urls.redirect_301 url)) =
      (moved_permanently url, store)
  after_url_layer others method req sent store (some Urls.inner) =
      buffer_layer others method req sent store

  pub url_layer : ℕ → Method → Request → Body → Store → Handled Store
  url_layer others method req sent store =
      after_url_layer others method req sent store (call o.unicode_lower o.authority_host req)

  pub security_layer : Request → Handled Store → Handled Store
  security_layer req (response, store) = (add_security_headers o.unicode_lower req response, store)

  -- `CatchPanicLayer`: a 500.
  pub catch_panic : Handled Store → Response × Store
  catch_panic (some response, store) = (response, store)
  catch_panic (none, store) = (text_response 500, store)

  -- A request, while `others` requests are within the limit.
  pub serve : ℕ → Method → Request → Body → Store → Response × Store
  serve others method req sent store =
      catch_panic (security_layer req (url_layer others method req sent store))
