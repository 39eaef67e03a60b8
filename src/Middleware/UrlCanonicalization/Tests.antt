-- ===== src/Middleware/UrlCanonicalization/Tests.antt =====
-- Runs of middleware/url_canonicalization.rs.
use crackstation_rust.Base.{codes, some, [], ◌∷◌, ◌≡◌, refl, false, arith}
use crackstation_rust.Http.{header_str}
use crackstation_rust.Util.{is_https}
use crackstation_rust.Registry.Pages.{to_lowercase}
use crackstation_rust.Registry.Resolve.{
  resolve_path, resolve_name, lookup_page, answer_found, strip_extension,
}
use crackstation_rust.Fixtures.{no_unicode, authority, request}
use crackstation_rust.Middleware.UrlCanonicalization.{
  Request, redirect_301, inner, is_dev_host, peer_is_https, host_name, canonicalized,
  canonicalize_url, finish, build_redirect_url, append_query, call,
}
use crackstation_rust.Middleware.UrlCanonicalization.Redirects.{
  IsHome, redirect-IsHome, call_settles,
}

abbrev foreign : Request
foreign = request (("host", "www.crackstation.net") ∷ []) "/About-Us.html"

abbrev at_home : Request
at_home = request (("host", "crackstation.net") ∷ []) "/About-Us.html"

abbrev at_page : Request
at_page = request (("host", "crackstation.net") ∷ []) "/about-us.htm"

foreign-public : is_dev_host (codes "www.crackstation.net") ≡ false
unfolding is_dev_host
foreign-public = refl

foreign-moves :
    call no_unicode authority foreign
    ≡ some (redirect_301 (codes "https://crackstation.net/About-Us.html"))
unfolding call is_dev_host peer_is_https header_str is_https host_name to_lowercase
    build_redirect_url
foreign-moves = refl

at_home-moves :
    call no_unicode authority at_home
    ≡ some (redirect_301 (codes "https://crackstation.net/about-us.htm"))
unfolding call is_dev_host peer_is_https header_str is_https host_name to_lowercase canonicalize_url
    finish canonicalized append_query build_redirect_url resolve_path resolve_name lookup_page
    answer_found strip_extension
at_home-moves = refl

redirect-IsHome_example :
    IsHome no_unicode authority refl (codes "https://crackstation.net/About-Us.html")
unfolding header_str
redirect-IsHome_example =
    redirect-IsHome no_unicode authority refl foreign
      (codes "https://crackstation.net/About-Us.html") (omega arith) foreign-public foreign-moves

call_settles_example : call no_unicode authority at_page ≡ some inner
unfolding peer_is_https build_redirect_url header_str is_https
call_settles_example =
    call_settles no_unicode authority refl foreign at_home at_page
      (codes "https://crackstation.net/About-Us.html")
      (codes "https://crackstation.net/about-us.htm") (omega arith) foreign-moves
      (omega arith, refl) at_home-moves (omega arith, refl)
