-- ===== src/Server/Tests.antt =====
-- Requests to the server of src/main.rs.
use crackstation_rust.Base.{
  ◌≡◌, ◌⊎◌, ℕ, true, ◌+◌, false, none, some, [], ◌∷◌, Text, codes, text_eq, refl, arith,
}
use crackstation_rust.Http.{v4, get, post, header_str, Response}
use crackstation_rust.Fixtures.{
  no_unicode, request, authority, parse_seven, show_seven, home_request, home_request-passes,
  plain_codec, blind_oracle,
}
use crackstation_rust.Home.{captcha_bypass_key_hash}
use crackstation_rust.Cracking.Oracle.{CrackWithLimit}
use crackstation_rust.Middleware.UrlCanonicalization.{Request}
use crackstation_rust.Middleware.UrlCanonicalization as Urls
use crackstation_rust.Server.Outside.{Environment}
use crackstation_rust.Server.Answers.{Effect, counted_hit}
use crackstation_rust.Server.Requests.{Served, serve-Served, serve-Effect}
use crackstation_rust.Server.Consulting.{with_oracle, Consults}
use crackstation_rust.Server.Secrecy.{serve-Consults}
use crackstation_rust.Server.Views.{view, serve-Shows}
use crackstation_rust.Server.Submissions.{Posted, serve-Posts}
use crackstation_rust.Server.Overload.{CanBeSent, IsEarly, serve-IsShort}
use crackstation_rust.Middleware.SecurityHeaders.{wants_hsts}
use crackstation_rust.Middleware.SecurityHeaders.Effects.{IsSecured}
use crackstation_rust.Registry.Pages.{Handler, home_page, to_lowercase, accepts_post}
use crackstation_rust.Registry.Resolve.{
  resolve_path, resolve_name, lookup_page, answer_found, strip_extension,
}
use crackstation_rust.Csrf.Tests.{home_request-is_ours}
use crackstation_rust.Middleware.BufferBody.{
  next, declares_oversized_body, will_consume_a_body, receive, buffer_body_middleware,
}
use crackstation_rust.Registry.Home.{resolve_home}
use crackstation_rust.Server.{get_page, serve}

abbrev rendered : Response
rendered = record { status = 200; headers = λ name. [] }

-- A server without static files, whose counter counts the calls.
abbrev server : Environment Text ℕ ℕ
server = record {
  unicode_lower = no_unicode;
  authority_host = authority;
  is_header_value = λ url. true;
  parse_ip = parse_seven;
  show_ip = show_seven;
  no_hits = 0;
  record_and_get_hits = λ page client agent n. (n + 1, n + 1);
  to_bytes = λ body limit. some body;
  render = λ page. rendered;
  is_nested = λ prefix path. false;
  after_fallback = λ response. response;
  missing_connect_info = rendered;
  files = λ method req. rendered;
  assets = λ method req. none;
  parse_form = λ body. [];
  sha256_hex = λ s. s;
  send = λ secret token ip. none;
  parse_json = λ bytes. none;
  codec = plain_codec;
  oracle = blind_oracle;
  recaptcha_secret_key = none;
  recaptcha_site_key = [];
}

serve-Served_example : Served server post home_request [] (serve server 0 post home_request [] 5).0
serve-Served_example = serve-Served server 0 post home_request (v4 0x7f000001) [] 5 refl

serve-Effect_example :
    Effect server get home_request (v4 0x7f000001) 5 (serve server 1023 get home_request [] 5).1
serve-Effect_example = serve-Effect server 1023 get home_request (v4 0x7f000001) [] 5 refl

any-CanBeSent : (outcome : Urls.Outcome) → CanBeSent server outcome
any-CanBeSent Urls.bad_request = tt
any-CanBeSent (Urls.redirect_301 url) = refl
any-CanBeSent Urls.inner = tt

serve-IsShort_example :
    IsEarly (serve server 1024 get home_request [] 5).0.status
    × ((serve server 1024 get home_request [] 5).1 ≡ 5)
serve-IsShort_example =
    serve-IsShort server 1024 get home_request [] 5 (omega arith)
      (λ outcome e. any-CanBeSent outcome)

-- A submission that bypasses the captcha and asks for one hash, and an oracle that fails.
abbrev bypassing_request : Request
bypassing_request =
    request
      (("host", "crackstation.net")
        ∷ ("origin", "https://crackstation.net")
        ∷ ("x-captcha-bypass", "key")
        ∷ [])
      "/"

abbrev cracking_server : Environment Text ℕ ℕ
cracking_server = record server {
  parse_form = λ body. (codes "hashes", codes "d0763edb") ∷ [];
  sha256_hex = λ s. captcha_bypass_key_hash;
}

abbrev failing_oracle : CrackWithLimit
failing_oracle hashes early limit = none

serve-Consults_example :
    (serve cracking_server 0 post bypassing_request [] 5
      ≡ serve (with_oracle failing_oracle cracking_server) 0 post bypassing_request [] 5)
    ⊎ Consults cracking_server 0 post bypassing_request (v4 0x7f000001) []
serve-Consults_example =
    serve-Consults cracking_server failing_oracle 0 post bypassing_request (v4 0x7f000001) [] 5 refl

serve-Shows_example :
    IsSecured
      (text_eq home_request.path (codes "/"))
      (wants_hsts home_request)
      (get_page server Handler.home (view server (v4 0x7f000001) home_request home_page 5))
      (serve server 7 get home_request [] 5).0
    × ((serve server 7 get home_request [] 5).1
        ≡ counted_hit server (v4 0x7f000001) home_request home_page 5)
serve-Shows_example =
    serve-Shows server get home_request (v4 0x7f000001) home_page Handler.home [] 5 refl refl
      home_request-passes (resolve_home no_unicode (codes "/") refl) refl 7 (omega arith) refl refl
      refl

home_request-received :
    buffer_body_middleware Text server.to_bytes no_unicode post
      (codes "/")
      home_request.headers
      (codes "hashes=")
    ≡ some (next (some (codes "hashes=")))
unfolding buffer_body_middleware will_consume_a_body receive declares_oversized_body to_lowercase
    accepts_post resolve_path resolve_name lookup_page answer_found strip_extension header_str
home_request-received = refl

serve-Posts_example :
    Posted cracking_server home_request
      (v4 0x7f000001)
      (codes "hashes=")
      5
      (serve cracking_server 7 post home_request (codes "hashes=") 5).0
    × ((serve cracking_server 7 post home_request (codes "hashes=") 5).1
        ≡ counted_hit cracking_server (v4 0x7f000001) home_request home_page 5)
serve-Posts_example =
    serve-Posts cracking_server home_request (v4 0x7f000001) (codes "hashes=") (codes "hashes=") 5
      refl refl home_request-passes home_request-is_ours home_request-received 7 (omega arith) refl
