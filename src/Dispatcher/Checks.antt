-- ===== src/Dispatcher/Checks.antt =====
-- What the dispatcher knows of a body that the layer passes on, and of an origin.
use crackstation_rust.Base.{
  ℕ, true, false, Option, some, Text, codes, text_eq, Bool-cases, Option-cases, ◌≡◌, ◌≢◌, inl, inr,
  refl,
}
use crackstation_rust.Http.{Method, is_post}
use crackstation_rust.Middleware.UrlCanonicalization.{Request}
use crackstation_rust.Middleware.BufferBody.{
  next, declares_oversized_body, max_body_bytes, buffer_body_middleware, receive,
}
use crackstation_rust.Middleware.BufferBody.Reads.{will_consume_a_body_lem}
use crackstation_rust.Csrf.{Check, ok}
use crackstation_rust.Dispatcher.{is_rejected}

pub body_of_submission :
    {Body : Type 0} (to_bytes : Body → ℕ → Option Text) (u : Text → ℕ → Text → Text)
    (method : Method) (req : Request) (body : Body) (post_body : Option Text)
    → is_post method ≡ true
    → text_eq req.path (codes "/") ≡ true
    → buffer_body_middleware Body to_bytes u method req.path req.headers body
      ≡ some (next post_body)
    → (bytes : Text) × (post_body ≡ some bytes)
unfolding buffer_body_middleware receive
body_of_submission to_bytes u method req body post_body p root h =
    let e = rw (will_consume_a_body_lem u req.path, p, root) at h in
    elim (Bool-cases (declares_oversized_body req.headers)) [
      | inl big ↦ cc (rw big at e)
      | inr small ↦ elim (Option-cases (to_bytes body max_body_bytes)) [
        | inl failed ↦ cc (rw (small, failed) at e)
        | inr (bytes, found) ↦ (bytes, cc (rw (small, found) at e))
      ]
    ]

pub accepted_lem : (c : Check) → is_rejected c ≡ false → c ≡ ok
accepted_lem ok e = refl
accepted_lem Check.origin_mismatch e = cc
accepted_lem Check.referer_mismatch e = cc
accepted_lem Check.no_header e = cc

pub rejected_lem : (c : Check) → is_rejected c ≡ true → c ≢ ok
rejected_lem ok e h = cc
rejected_lem Check.origin_mismatch e h = cc
rejected_lem Check.referer_mismatch e h = cc
rejected_lem Check.no_header e h = cc
