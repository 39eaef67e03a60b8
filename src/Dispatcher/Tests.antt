-- ===== src/Dispatcher/Tests.antt =====
-- Runs of registered_page_handler.rs.
use crackstation_rust.Base.{
  ℕ, ◌+◌, Text, Option, codes, some, ◌≡◌, refl, length, leb, if◌then◌else◌, none,
}
use crackstation_rust.Http.{v4, post, header_str}
use crackstation_rust.Registry.Pages.{to_lowercase, accepts_post}
use crackstation_rust.Registry.Resolve.{
  resolve_path, resolve_name, lookup_page, answer_found, strip_extension,
}
use crackstation_rust.Fixtures.{
  no_unicode, authority, parse_seven, show_seven, home_request, home_request-passes,
}
use crackstation_rust.Middleware.BufferBody.{
  next, declares_oversized_body, will_consume_a_body, receive, buffer_body_middleware,
}
use crackstation_rust.Secret.{new_secret, expose, debug_secret}
use crackstation_rust.Dispatcher.{handle, handle_unsupported_method}
use crackstation_rust.Dispatcher.Unsupported.{Refuses, handle_unsupported_method-Refuses}
use crackstation_rust.Dispatcher.Dispatch.{Replies, handle-Replies}

abbrev arrived : Text → ℕ → Option Text
arrived bytes limit = if leb (length bytes) limit then some bytes else none

-- A counter of all hits.
abbrev counted : Text → Text → Text → ℕ → ℕ × ℕ
counted page_id client_ip user_agent hits = (hits + 1, hits + 1)

abbrev body : Text
body = codes "hashes=abc"

body-arrives :
    buffer_body_middleware Text arrived no_unicode post (codes "/") home_request.headers body
    ≡ some (next (some body))
unfolding buffer_body_middleware will_consume_a_body receive declares_oversized_body to_lowercase
    accepts_post resolve_path resolve_name lookup_page answer_found strip_extension header_str
body-arrives = refl

redacted : (value : Text) → debug_secret (new_secret value) ≡ codes "BypassSecret([redacted])"
redacted value = refl

readable : (value : Text) → expose (new_secret value) ≡ value
readable value = refl

handle-Replies_example :
    Replies no_unicode authority parse_seven show_seven 0 counted
      (codes "key")
      post
      home_request
      (codes "0.0.0.7")
      (some body)
      41
      (handle no_unicode authority parse_seven show_seven 0 counted
        (codes "key")
        post
        home_request
        (some body)
        41)
handle-Replies_example =
    handle-Replies no_unicode authority parse_seven show_seven 0 counted (codes "key") arrived post
      home_request (v4 0x7f000001) body (some body) 41 refl refl home_request-passes body-arrives

handle_unsupported_method-Refuses_example :
    Refuses no_unicode authority parse_seven show_seven 0 counted (codes "key") (codes "/") (
      handle_unsupported_method no_unicode authority parse_seven show_seven 0 counted
        (codes "key")
        (v4 0x7f000001)
        home_request.headers
        (codes "/"))
handle_unsupported_method-Refuses_example =
    handle_unsupported_method-Refuses no_unicode authority parse_seven show_seven 0 counted
      (codes "key") (v4 0x7f000001) home_request.headers (codes "/")
