-- ===== src/Csrf/Tests.antt =====
-- Runs of libs/csrf.rs.
use crackstation_rust.Base.{Text, codes, [], ◌∷◌, ◌≡◌, ◌↔◌, refl}
use crackstation_rust.Http.{HeaderMap, header_str}
use crackstation_rust.Registry.Pages.{to_lowercase}
use crackstation_rust.Fixtures.{no_unicode, authority, headers_of, home_request}
use crackstation_rust.Middleware.UrlCanonicalization.{is_dev_host}
use crackstation_rust.Csrf.{
  ok, origin_mismatch, host_from_url, strip_port, is_accepted_host, hosts_match, check_origin,
}
use crackstation_rust.Csrf.Origin.{Source, IsOurs, IsSameSite, check_origin_iff}

abbrev own : HeaderMap
own = headers_of (("host", "crackstation.net") ∷ ("origin", "https://CrackStation.net") ∷ [])

abbrev rebound : HeaderMap
rebound = headers_of (("host", "evil.example") ∷ ("origin", "https://evil.example") ∷ [])

own-accepted : check_origin no_unicode authority own ≡ ok
unfolding check_origin hosts_match is_accepted_host strip_port to_lowercase is_dev_host
    host_from_url header_str
own-accepted = refl

rebound-refused : check_origin no_unicode authority rebound ≡ origin_mismatch
unfolding check_origin hosts_match is_accepted_host strip_port to_lowercase is_dev_host
    host_from_url header_str
rebound-refused = refl

pub home_request-is_ours : check_origin no_unicode authority home_request.headers ≡ ok
unfolding check_origin hosts_match is_accepted_host strip_port to_lowercase is_dev_host
    host_from_url header_str
home_request-is_ours = refl

check_origin_iff_example : (check_origin no_unicode authority own ≡ ok) ↔ (
    (url : Text) × Source own url
    × IsOurs no_unicode authority (codes "crackstation.net")
    × IsSameSite no_unicode authority url (codes "crackstation.net"))
unfolding header_str
check_origin_iff_example = check_origin_iff no_unicode authority own
