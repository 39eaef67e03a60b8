-- ===== src/Middleware/BufferBody.antt =====
-- src/middleware/buffer_body.rs: the body of a POST is read before the request reaches the pool.
pub mod Announced
pub mod Reads
mod Tests
use crackstation_rust.Base.{
  ℕ, ◌+◌, ◌-◌, ◌*◌, ◌^◌, Bool, true, false, not, ◌&&◌, ◌||◌, Option, none, some, List, [], ◌∷◌,
  Text, ltb, leb, ◌==◌, is_empty, if◌then◌else◌, ◌>>=◌,
}
use crackstation_rust.Http.{HeaderMap, header_str, Method, is_post}
use crackstation_rust.Registry.Pages.{takes_post}
use crackstation_rust.Registry.Resolve.{
  PathLookupResult, canonical, redirect, not_found, resolve_path,
}

abbrev pub max_body_bytes : ℕ
max_body_bytes = 128 * 1024

-- `value.parse::<u64>().ok()` of the standard library: a `+` may stand before the digits, and a
-- value of 2^64 or more is an error.
unfoldable pub parse_digits : ℕ → Text → Option ℕ
parse_digits n [] = some n
parse_digits n (c ∷ s) =
    let m = n * 10 + (c - b'0') in
    let rest = parse_digits m s in if leb b'0' c && leb c b'9' && ltb m (2 ^ 64) then rest else none

abbrev pub without_plus : Text → Text
without_plus [] = []
without_plus (c ∷ s) = if c == b'+' then s else c ∷ s

unfoldable pub parse_u64 : Text → Option ℕ
unfolding parse_digits
parse_u64 s = if is_empty (without_plus s) then none else parse_digits 0 (without_plus s)

abbrev pub exceeds : Option ℕ → Bool
exceeds none = false
exceeds (some len) = ltb max_body_bytes len

unfoldable pub declares_oversized_body : HeaderMap → Bool
unfolding parse_u64
declares_oversized_body headers =
    exceeds (do value ← header_str "content-length" headers; parse_u64 value)

abbrev pub consumes : PathLookupResult → Bool
consumes (canonical page) = takes_post page.handler
consumes (redirect url) = false
consumes not_found = false

-- What the layer does: it passes the request on with the bytes that it read, if it read any, or
-- it answers 413 or 400.
pub data Outcome : Type 0 where
  next : Option Text → Outcome
  payload_too_large : Outcome
  bad_request : Outcome

abbrev pub buffered : Option Text → Outcome
buffered (some bytes) = next (some bytes)
buffered none = bad_request

-- `none` is a panic of `resolve_path`.
unfoldable pub will_consume_a_body : (Text → ℕ → Text → Text) → Text → Option Bool
will_consume_a_body unicode_lower path = do r ← resolve_path unicode_lower path; some (consumes r)

-- `axum::body::to_bytes`: the bytes of a body, or an error, also where they are more than a limit.
module _ (Body : Type 0) (to_bytes : Body → ℕ → Option Text) where
  unfoldable pub receive : HeaderMap → Body → Outcome
  receive headers body =
      if declares_oversized_body headers
      then payload_too_large
      else buffered (to_bytes body max_body_bytes)

  -- The source resolves the path of a POST alone; resolution has no effect, and always returns.
  unfoldable pub buffer_body_middleware :
      (Text → ℕ → Text → Text) → Method → Text → HeaderMap → Body → Option Outcome
  buffer_body_middleware unicode_lower method path headers body = do
    consumed ← will_consume_a_body unicode_lower path
    some (if not (is_post method) || not consumed then next none else receive headers body)
