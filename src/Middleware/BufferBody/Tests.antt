-- ===== src/Middleware/BufferBody/Tests.antt =====
-- Runs of middleware/buffer_body.rs.
use crackstation_rust.Base.{
  ℕ, Text, Option, codes, some, none, [], ◌∷◌, ◌≡◌, refl, false, true, length, leb, if◌then◌else◌,
}
use crackstation_rust.Http.{HeaderMap, post, header_str}
use crackstation_rust.Fixtures.{no_unicode, headers_of}
use crackstation_rust.Middleware.BufferBody.{
  Outcome, declares_oversized_body, buffer_body_middleware,
}
use crackstation_rust.Middleware.BufferBody.Reads.{Explains, buffer_body_middleware_lem}

at_the_cap : declares_oversized_body (headers_of (("content-length", "131072") ∷ [])) ≡ false
unfolding declares_oversized_body header_str
at_the_cap = refl

over_the_cap : declares_oversized_body (headers_of (("content-length", "+131073") ∷ [])) ≡ true
unfolding declares_oversized_body header_str
over_the_cap = refl

no_number : declares_oversized_body (headers_of (("content-length", "-1") ∷ [])) ≡ false
unfolding declares_oversized_body header_str
no_number = refl

-- A body that arrives at once.
abbrev arrived : Text → ℕ → Option Text
arrived bytes limit = if leb (length bytes) limit then some bytes else none

abbrev announced : HeaderMap
announced = headers_of (("content-length", "200000") ∷ [])

buffer_body_middleware_lem_example :
    (o : Outcome) × (buffer_body_middleware Text arrived no_unicode post
        (codes "/")
        announced
        (codes "hashes=a")
      ≡ some o)
    × Explains Text arrived post (codes "/") announced (codes "hashes=a") o
buffer_body_middleware_lem_example =
    buffer_body_middleware_lem Text arrived no_unicode post (codes "/") announced (codes "hashes=a")
