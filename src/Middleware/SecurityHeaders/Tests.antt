-- ===== src/Middleware/SecurityHeaders/Tests.antt =====
-- Runs of middleware/security_headers.rs.
use crackstation_rust.Base.{codes, some, [], ◌∷◌, ◌≡◌, refl, false}
use crackstation_rust.Http.{Response, header_str}
use crackstation_rust.Fixtures.{
  no_unicode, authority, headers_of, home_request, home_request-passes,
}
use crackstation_rust.Middleware.UrlCanonicalization.{is_dev_host}
use crackstation_rust.Middleware.SecurityHeaders.{hsts_value, add_security_headers}
use crackstation_rust.Middleware.SecurityHeaders.Effects.{
  IsGuarded, add_security_headers_lem, add_security_headers-hsts,
}

abbrev page : Response
page = record {
  status = 200;
  headers =
      headers_of (("content-type", "text/html; charset=utf-8") ∷ ("allow", "GET,HEAD,POST") ∷ []);
}

add_security_headers_lem_example :
    (after : Response) × (add_security_headers no_unicode home_request (some page) ≡ some after)
    × IsGuarded home_request page after
add_security_headers_lem_example = add_security_headers_lem no_unicode home_request page

home-public : is_dev_host (codes "crackstation.net") ≡ false
unfolding is_dev_host
home-public = refl

add_security_headers-hsts_example :
    (after : Response) × (add_security_headers no_unicode home_request (some page) ≡ some after)
    × (header_str "strict-transport-security" after.headers ≡ some hsts_value)
unfolding header_str
add_security_headers-hsts_example =
    add_security_headers-hsts no_unicode authority home_request page home-public home_request-passes
