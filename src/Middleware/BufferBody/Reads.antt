-- ===== src/Middleware/BufferBody/Reads.antt =====
-- When the layer of buffer_body.rs reads a body, and how much of it.
use crackstation_rust.Base.{
  ℕ, true, false, ◌&&◌, Option, none, some, Text, codes, text_eq, text_eq_sound, Bool-cases,
  Option-cases, inl, inr, ◌≡◌, refl,
}
use crackstation_rust.Http.{HeaderMap, Method, is_post}
use crackstation_rust.Registry.Resolve.{
  PathLookupResult, canonical, redirect, not_found, resolve_path,
}
use crackstation_rust.Registry.Laws.{IsRight, resolve_path-IsRight}
use crackstation_rust.Registry.Home.{resolve_home, slug_of_canonical}
use crackstation_rust.Middleware.BufferBody.Announced.{
  AnnouncesMore, declares_oversized_body_iff, not_AnnouncesMore,
}
use crackstation_rust.Middleware.BufferBody.{
  max_body_bytes, declares_oversized_body, consumes, Outcome, next, payload_too_large, bad_request,
  will_consume_a_body, receive, buffer_body_middleware,
}

module _ (u : Text → ℕ → Text → Text) where
  consumes_lem :
      (path : Text) (r : PathLookupResult)
      → resolve_path u path ≡ some r
      → IsRight u path r
      → consumes r ≡ text_eq path (codes "/")
  consumes_lem path (canonical page) e (here, served) =
      rw (served.4) (slug_of_canonical u path page here)
  consumes_lem path (redirect url) e h = elim (Bool-cases (text_eq path (codes "/"))) [
    | inl root ↦ cc (e, resolve_home u path (text_eq_sound path (codes "/") root))
    | inr away ↦ rw away refl
  ]
  consumes_lem path not_found e h = elim (Bool-cases (text_eq path (codes "/"))) [
    | inl root ↦ cc (e, resolve_home u path (text_eq_sound path (codes "/") root))
    | inr away ↦ rw away refl
  ]

  -- The path `/` alone has a page that consumes a body.
  pub will_consume_a_body_lem :
      (path : Text) → will_consume_a_body u path ≡ some (text_eq path (codes "/"))
  unfolding will_consume_a_body
  will_consume_a_body_lem path =
      let (r, e, right) = resolve_path-IsRight u path in
      rw e (rw (consumes_lem path r e right) refl)

module _ (Body : Type 0) (to_bytes : Body → ℕ → Option Text) where
  -- A request to the form: a POST to the path `/`.
  abbrev pub IsSubmission : Method → Text → Type 0
  IsSubmission method path = (is_post method ≡ true) × (path ≡ codes "/")

  -- What each answer says of the request.
  abbrev pub Explains : Method → Text → HeaderMap → Body → Outcome → Type 0
  Explains method path headers body (next none) =
      (is_post method && text_eq path (codes "/")) ≡ false
  Explains method path headers body (next (some bytes)) =
      IsSubmission method path × (¬ AnnouncesMore headers) × (to_bytes body 131072 ≡ some bytes)
  Explains method path headers body payload_too_large =
      IsSubmission method path × AnnouncesMore headers
  Explains method path headers body bad_request =
      IsSubmission method path × (¬ AnnouncesMore headers) × (to_bytes body 131072 ≡ none)

  -- A body is read of a POST to `/` alone, and where its `Content-Length` is not the numeral of a
  -- `u64` above 131072: then what `to_bytes` gives under a limit of 131072 bytes goes on to the
  -- dispatcher, and its error is answered. Such a numeral is answered with 413 before the body is
  -- read. Every other request passes without a body.
  pub buffer_body_middleware_lem :
      (u : Text → ℕ → Text → Text) (method : Method) (path : Text) (headers : HeaderMap)
      (body : Body)
      → (o : Outcome) × (buffer_body_middleware Body to_bytes u method path headers body ≡ some o)
        × Explains method path headers body o
  unfolding buffer_body_middleware receive
  buffer_body_middleware_lem u method path headers body =
      rw (will_consume_a_body_lem u path) (elim (Bool-cases (is_post method)) [
        | inr h ↦ rw h (next none, refl, rw h refl)
        | inl h ↦ elim (Bool-cases (text_eq path (codes "/"))) [
          | inr away ↦ rw (h, away) (next none, refl, rw (h, away) refl)
          | inl root ↦
              let here : IsSubmission method path = (h, text_eq_sound path (codes "/") root) in
              elim (Bool-cases (declares_oversized_body headers)) [
                | inl big ↦
                    rw (h, root, big)
                      (payload_too_large, refl, (here, (declares_oversized_body_iff headers).0 big))
                | inr small ↦ elim (Option-cases (to_bytes body max_body_bytes)) [
                  | inl failed ↦
                      rw (h, root, small, failed)
                        (bad_request, refl, (here, not_AnnouncesMore headers small, failed))
                  | inr (bytes, found) ↦
                      rw (h, root, small, found)
                        (next (some bytes), refl, (here, not_AnnouncesMore headers small, found))
                ]
              ]
        ]
      ])
