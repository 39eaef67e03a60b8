-- ===== src/Dispatcher/Unsupported.antt =====
-- `handle_unsupported_method` (registered_page_handler.rs): PUT, DELETE and the like.
use crackstation_rust.Base.{
  ℕ, Bool, true, false, Option, some, Text, codes, text_eq, some_of_is_some, ◌≡◌, refl, sym, subst,
  ◌∙◌, if◌then◌else◌, ◌>>=◌,
}
use crackstation_rust.Http.{HeaderMap, IpAddr}
use crackstation_rust.Registry.Pages.{Handler, accepts_post, takes_post, allowed_methods}
use crackstation_rust.Registry.Resolve.{
  PathLookupResult, canonical, redirect, not_found, resolve_path,
}
use crackstation_rust.Registry.Laws.{IsRight, resolve_path-IsRight}
use crackstation_rust.Registry.Home.{slug_of_canonical}
use crackstation_rust.Dispatcher.{
  Reply, render_not_found, method_not_allowed, unsupported_reply, handle_unsupported_method,
}

abbrev pub is_canonical : PathLookupResult → Bool
is_canonical (canonical page) = true
is_canonical _ = false

-- The methods of a page, by its path.
abbrev pub methods_at : Text → Text
methods_at path = if text_eq path (codes "/") then codes "GET, HEAD, POST" else codes "GET, HEAD"

module _ (u : Text → ℕ → Text → Text) (authority_host : Text → Option Text)
    (parse_ip : Text → Option IpAddr) (show_ip : IpAddr → Text) {Store HitCounts : Type 0}
    (no_hits : HitCounts) (record_and_get_hits : Text → Text → Text → Store → HitCounts × Store)
    (key : Text) where
  -- A 405 stands on a page, with the methods of that page, and a 404 on every other path.
  abbrev pub IsRefusal : Text → Reply HitCounts → Type 0
  IsRefusal path (method_not_allowed allow) =
      (r : PathLookupResult) × (resolve_path u path ≡ some r)
      × (is_canonical r ≡ true)
      × (allow ≡ methods_at path)
  IsRefusal path (render_not_found ctx) =
      (r : PathLookupResult) × (resolve_path u path ≡ some r) × (is_canonical r ≡ false)
  IsRefusal path _ = ⊥

  abbrev pub Refuses : Text → Option (Reply HitCounts) → Type 0
  Refuses path result = (reply : Reply HitCounts) × (result ≡ some reply) × IsRefusal path reply

  methods_lem :
      (path : Text) (handler : Handler)
      → accepts_post handler ≡ text_eq path (codes "/")
      → allowed_methods handler ≡ methods_at path
  unfolding allowed_methods
  methods_lem path handler e = rw e refl

  result-Refuses :
      (client path : Text) (r : PathLookupResult)
      → resolve_path u path ≡ some r
      → IsRight u path r
      → Refuses path (
          unsupported_reply u authority_host parse_ip show_ip no_hits record_and_get_hits key client
            r)
  unfolding unsupported_reply
  result-Refuses client path (canonical page) found (here, served) =
      let (handler, h) = some_of_is_some page.handler (served.1) in
      let takes : takes_post page.handler ≡ text_eq path (codes "/") =
        served.4 ∙ slug_of_canonical u path page here in
      subst
        (λ o. Refuses path (do handler ← o; some (method_not_allowed (allowed_methods handler))))
        (sym h)
        (
          method_not_allowed (allowed_methods handler),
          refl,
          (canonical page, found, refl, methods_lem path handler (rw h at takes)),
        )
  result-Refuses client path (redirect url) found right = (_, refl, (redirect url, found, refl))
  result-Refuses client path not_found found right = (_, refl, (not_found, found, refl))

  -- A method that the router does not know is answered without a panic: with a 405 on the canonical
  -- path of a page, where `Allow` names POST exactly on `/`, and with the 404 page on every other.
  pub handle_unsupported_method-Refuses :
      (ip : IpAddr) (headers : HeaderMap) (path : Text)
      → Refuses path (
          handle_unsupported_method u authority_host parse_ip show_ip no_hits record_and_get_hits
            key ip headers path)
  unfolding handle_unsupported_method
  handle_unsupported_method-Refuses ip headers path =
      let (r, found, right) = resolve_path-IsRight u path in
      rw found (result-Refuses _ path r found right)
