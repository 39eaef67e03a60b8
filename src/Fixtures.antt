-- ===== src/Fixtures.antt =====
-- Concrete instances of the parameters that stand for other crates, and requests, for the tests.
use text.Mathlib.Text.{◌==◌ as str_eq}
use crackstation_rust.Base.{
  ℕ, String, Option, none, some, List, [], ◌∷◌, map, Text, codes, ◌==◌, ◌≡◌, refl, if◌then◌else◌,
}
use crackstation_rust.Http.{HeaderMap, header_str, IpAddr, v4}
use crackstation_rust.Cracking.Display.{Codec}
use crackstation_rust.Cracking.Oracle.{HashResult, invalid_format, CrackWithLimit}
use crackstation_rust.Cracking.Lookups.{KeepsContract, AllFit}
use crackstation_rust.Util.{is_https}
use crackstation_rust.Registry.Pages.{to_lowercase}
use crackstation_rust.Registry.Resolve.{
  resolve_path, resolve_name, lookup_page, answer_found, strip_extension,
}
use crackstation_rust.Middleware.UrlCanonicalization.{
  Request, inner, is_dev_host, peer_is_https, host_name, canonicalized, canonicalize_url, finish,
  call,
}

-- Lower case of ASCII letters alone.
abbrev pub no_unicode : Text → ℕ → Text → Text
no_unicode before c after = c ∷ []

abbrev pub before_colon : Text → Text
before_colon [] = []
before_colon (c ∷ s) = if c == b':' then [] else c ∷ before_colon s

abbrev pub authority : Text → Option Text
authority host = some (before_colon host)

abbrev pub parse_seven : Text → Option IpAddr
parse_seven s = some (v4 7)

abbrev pub show_seven : IpAddr → Text
show_seven ip = codes "0.0.0.7"

abbrev pub headers_of : List (String × String) → HeaderMap
headers_of [] n = []
headers_of ((k, v) ∷ hs) n = if str_eq k n then some (codes v) ∷ [] else headers_of hs n

-- A request behind the proxy.
abbrev pub request : List (String × String) → String → Request
request headers path = record {
  connection_ip = some (v4 0x7f000001);
  headers = headers_of (("x-forwarded-proto", "https") ∷ headers);
  path = codes path;
  query = none;
}

abbrev pub home_request : Request
home_request =
    request (("host", "crackstation.net") ∷ ("origin", "https://crackstation.net") ∷ []) "/"

-- A codec that shows the bytes as they are.
abbrev pub plain_codec : Codec
plain_codec = record {
  from_utf8 = some;
  from_utf8_lossy = λ bytes. bytes;
  hex_encode = λ bytes. bytes;
}

-- An oracle that knows no format.
abbrev pub refusals : List Text → List HashResult
refusals hs = map (λ h. invalid_format h) hs

abbrev pub blind_oracle : CrackWithLimit
blind_oracle hashes early limit = some (refusals hashes)

refusals-AllFit : (limit : ℕ) (hs : List Text) → AllFit limit hs (refusals hs)
refusals-AllFit limit [] = tt
refusals-AllFit limit (h ∷ hs) = (refl, refusals-AllFit limit hs)

pub blind_oracle-KeepsContract : KeepsContract blind_oracle
blind_oracle-KeepsContract hashes early limit = refusals-AllFit limit hashes

pub home_request-passes : call no_unicode authority home_request ≡ some inner
unfolding call is_dev_host peer_is_https host_name to_lowercase canonicalize_url finish
    canonicalized resolve_path resolve_name lookup_page answer_found strip_extension header_str
    is_https
home_request-passes = refl
