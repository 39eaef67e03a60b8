-- ===== src/Dispatcher/Contexts.antt =====
-- What the dispatcher of src/registered_page_handler.rs hands to the handler of a form.
use crackstation_rust.Base.{
  ℕ, Option, none, some, Text, not, ◌&&◌, is_empty, Bool-cases, ◌≡◌, inl, inr, refl, ◌>>=◌,
}
use crackstation_rust.Http.{IpAddr, Method, get, head, post, other, is_post, header_str}
use crackstation_rust.Util.{client_ip}
use crackstation_rust.Registry.Pages.{Handler, PageInfo, accepts_post}
use crackstation_rust.Registry.Resolve.{
  PathLookupResult, canonical, redirect, not_found, hit_counter_id, resolve_path,
}
use crackstation_rust.Middleware.UrlCanonicalization.{Request, or_empty}
use crackstation_rust.Csrf.{check_origin}
use crackstation_rust.Dispatcher.{
  PageContext, Reply, bad_request, render_not_found, method_not_allowed, cross_origin_rejected,
  call_get, call_post, is_rejected, user_agent_of, context_of, dispatch, with_body, handle_page,
  handle_result, handle,
}

module _ (u : Text → ℕ → Text → Text) (authority_host : Text → Option Text)
    (parse_ip : Text → Option IpAddr) (show_ip : IpAddr → Text) {Store HitCounts : Type 0}
    (no_hits : HitCounts) (record_and_get_hits : Text → Text → Text → Store → HitCounts × Store)
    (key : Text) where
  -- The context of a page that is called: from the request, with the counts behind its hit.
  abbrev pub seen : Text → Request → Store → PageInfo → PageContext HitCounts
  seen client req store page =
      context_of u authority_host parse_ip show_ip no_hits record_and_get_hits key req client page
        (record_and_get_hits (hit_counter_id page) client (user_agent_of req) store).0

  -- A call is one of the handler of the page at the path, in the context of the request.
  abbrev pub IsCall : Text → Request → Store → Handler → PageContext HitCounts → Type 0
  IsCall client req store handler ctx =
      (ctx ≡ seen client req store ctx.page_info)
      × (ctx.page_info.handler ≡ some handler)
      × (resolve_path u req.path ≡ some (canonical ctx.page_info))

  abbrev pub IsOurs : Text → Request → Store → Reply HitCounts → Type 0
  IsOurs client req store bad_request = Unit
  IsOurs client req store (render_not_found ctx) = Unit
  IsOurs client req store (method_not_allowed allow) = Unit
  IsOurs client req store cross_origin_rejected = Unit
  IsOurs client req store (call_get handler ctx) = IsCall client req store handler ctx
  IsOurs client req store (call_post handler ctx bytes) = IsCall client req store handler ctx

  abbrev pub Ours : Text → Request → Store → Option (Reply HitCounts × Store) → Type 0
  Ours client req store none = Unit
  Ours client req store (some (reply, after)) = IsOurs client req store reply

  Ours-bind :
      {A : Type 0} (m : Option A) (f : A → Option (Reply HitCounts × Store)) (client : Text)
      (req : Request) (store : Store)
      → ((a : A) → m ≡ some a → Ours client req store (f a))
      → Ours client req store (m >>= f)
  Ours-bind none f client req store h = _
  Ours-bind (some a) f client req store h = h a refl

  Ours-dispatch :
      (method : Method) (req : Request) (client : Text) (page : PageInfo) (handler : Handler)
      (body : Option Text) (store : Store)
      → resolve_path u req.path ≡ some (canonical page)
      → page.handler ≡ some handler
      → Ours client req store (
          dispatch u authority_host parse_ip show_ip no_hits record_and_get_hits key method req
            client page handler body store)
  unfolding dispatch
  Ours-dispatch get req client page handler body store found handled = (refl, handled, found)
  Ours-dispatch head req client page handler body store found handled = (refl, handled, found)
  Ours-dispatch post req client page handler none store found handled = _
  Ours-dispatch post req client page handler (some bytes) store found handled =
      (refl, handled, found)
  Ours-dispatch other req client page handler body store found handled = _

  Ours-body :
      (method : Method) (req : Request) (client : Text) (page : PageInfo) (handler : Handler)
      (body : Option Text) (store : Store)
      → resolve_path u req.path ≡ some (canonical page)
      → page.handler ≡ some handler
      → Ours client req store (
          with_body u authority_host parse_ip show_ip no_hits record_and_get_hits key method req
            client page handler body store)
  unfolding with_body
  Ours-body get req client page handler body store found handled =
      Ours-dispatch get req client page handler none store found handled
  Ours-body head req client page handler body store found handled =
      Ours-dispatch head req client page handler none store found handled
  Ours-body other req client page handler body store found handled =
      Ours-dispatch other req client page handler none store found handled
  Ours-body post req client page handler none store found handled = _
  Ours-body post req client page handler (some bytes) store found handled =
      Ours-dispatch post req client page handler (some bytes) store found handled

  Ours-page :
      (method : Method) (req : Request) (client : Text) (page : PageInfo) (handler : Handler)
      (body : Option Text) (store : Store)
      → resolve_path u req.path ≡ some (canonical page)
      → page.handler ≡ some handler
      → Ours client req store (
          handle_page u authority_host parse_ip show_ip no_hits record_and_get_hits key method req
            client page handler body store)
  unfolding handle_page
  Ours-page method req client page handler body store found handled =
      elim (Bool-cases (is_post method && not (accepts_post handler))) [
        | inl refused ↦ rw refused _
        | inr taken ↦
            elim (Bool-cases
              (is_post method && is_rejected (check_origin u authority_host req.headers))) [
                | inl foreign ↦ rw (taken, foreign) _
                | inr ours ↦
                    rw (taken, ours)
                      (Ours-body method req client page handler body store found handled)
              ]
      ]

  Ours-result :
      (method : Method) (req : Request) (client : Text) (body : Option Text) (store : Store)
      (result : PathLookupResult)
      → resolve_path u req.path ≡ some result
      → Ours client req store (
          handle_result u authority_host parse_ip show_ip no_hits record_and_get_hits key method req
            client body store result)
  unfolding handle_result
  Ours-result method req client body store (canonical page) found =
      Ours-bind page.handler _ client req store
        (λ handler handled. Ours-page method req client page handler body store found handled)
  Ours-result method req client body store not_found found = _
  Ours-result method req client body store (redirect url) found = _

  pub Ours-handle :
      (method : Method) (req : Request) (ip : IpAddr) (body : Option Text) (store : Store)
      → req.connection_ip ≡ some ip
      → Ours (show_ip (client_ip parse_ip ip req.headers)) req store (
          handle u authority_host parse_ip show_ip no_hits record_and_get_hits key method req body
            store)
  unfolding handle
  Ours-handle method req ip body store connected =
      let client = show_ip (client_ip parse_ip ip req.headers) in
      simp connected (elim (Bool-cases (is_empty (or_empty (header_str "host" req.headers)))) [
        | inl absent ↦ rw absent _
        | inr named ↦ rw named (
            Ours-bind (resolve_path u req.path) _ client req store
              (λ result found. Ours-result method req client body store result found))
      ])
