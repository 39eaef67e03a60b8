-- ===== src/Csrf/Origin.antt =====
-- `check_origin` (libs/csrf.rs) decides whether a request names this site as its source.
use crackstation_rust.Base.{
  ℕ, true, Option, none, some, List, [], ◌∷◌, map, Text, any, text_eq_iff, ascii_lower,
  eq_ignore_ascii_case, or_iff, guard_iff, ◌≡◌, ◌↔◌, ◌⊎◌, refl, arith,
}
use crackstation_rust.Http.{HeaderMap, header_str}
use crackstation_rust.Middleware.UrlCanonicalization.{master_host, dev_hosts, is_dev_host, or_empty}
use crackstation_rust.Csrf.{
  ok, host_from_url, strip_port, is_accepted_host, hosts_match, check_referer, check_source,
  check_origin,
}

-- The same text, but for the case of ASCII letters.
abbrev pub SameText : Text → Text → Type 0
SameText s t = map ascii_lower s ≡ map ascii_lower t

abbrev AnySame : List Text → Text → Type 0
AnySame [] host = ⊥
AnySame (h ∷ hs) host = SameText h host ⊎ AnySame hs host

-- The URL that the browser gives for the source of a request: `Referer` counts only in the absence
-- of `Origin`.
pub data Source (headers : HeaderMap) : Text → Type 0 where
  from_origin : (url : Text) → header_str "origin" headers ≡ some url → Source headers url
  from_referer :
      (url : Text)
      → header_str "origin" headers ≡ none
      → header_str "referer" headers ≡ some url
      → Source headers url

eq_ignore_iff : (s t : Text) → (eq_ignore_ascii_case s t ≡ true) ↔ SameText s t
eq_ignore_iff s t = text_eq_iff (map ascii_lower s) (map ascii_lower t)

any_iff :
    (hs : List Text) (host : Text)
    → (any (λ h. eq_ignore_ascii_case h host) hs ≡ true) ↔ AnySame hs host
any_iff [] host = (λ e. cc, λ e. absurd e)
any_iff (h ∷ hs) host = ground (arith, eq_ignore_iff h host, any_iff hs host)

module _ (u : Text → ℕ → Text → Text) (authority_host : Text → Option Text) where
  -- The hosts under which this site answers.
  abbrev pub IsOurs : Text → Type 0
  IsOurs host = SameText (strip_port u authority_host host) master_host ⊎ AnySame dev_hosts host

  -- A source on the host of the request, or on the master host.
  abbrev pub IsSameSite : Text → Text → Type 0
  IsSameSite url host =
      SameText (strip_port u authority_host (host_from_url url)) (strip_port u authority_host host)
      ⊎ SameText (strip_port u authority_host (host_from_url url)) master_host

  accepted_iff : (host : Text) → (is_accepted_host u authority_host host ≡ true) ↔ IsOurs host
  unfolding is_accepted_host is_dev_host
  accepted_iff host = or_iff _ _ (eq_ignore_iff _ master_host) (any_iff dev_hosts host)

  hosts_match_iff :
      (url host : Text)
      → (hosts_match u authority_host (host_from_url url) host ≡ true)
        ↔ (IsOurs host × IsSameSite url host)
  unfolding hosts_match
  hosts_match_iff url host =
      guard_iff _ _ (accepted_iff host)
        (or_iff _ _ (eq_ignore_iff _ _) (eq_ignore_iff _ master_host))

  check_sound :
      (headers : HeaderMap) (o r : Option Text)
      → header_str "origin" headers ≡ o
      → header_str "referer" headers ≡ r
      → check_source u authority_host (or_empty (header_str "host" headers)) o r ≡ ok
      → (url : Text) × Source headers url
        × IsOurs (or_empty (header_str "host" headers))
        × IsSameSite url (or_empty (header_str "host" headers))
  unfolding check_source check_referer
  check_sound headers (some url) r eo er h =
      let (ours, same) =
        (hosts_match_iff url (or_empty (header_str "host" headers))).0 (ground arith) in
      (url, from_origin url eo, ours, same)
  check_sound headers none (some url) eo er h =
      let (ours, same) =
        (hosts_match_iff url (or_empty (header_str "host" headers))).0 (ground arith) in
      (url, from_referer url eo er, ours, same)
  check_sound headers none none eo er h = cc

  check_complete :
      (headers : HeaderMap) (url : Text)
      → Source headers url
      → IsOurs (or_empty (header_str "host" headers))
        × IsSameSite url (or_empty (header_str "host" headers))
      → check_origin u authority_host headers ≡ ok
  unfolding check_origin
  check_complete headers url (from_origin _ e) good = rw (e, (hosts_match_iff url _).1 good) refl
  check_complete headers url (from_referer _ e e') good =
      rw (e, e', (hosts_match_iff url _).1 good) refl

  -- A POST is accepted exactly if it names a source, `Origin` before `Referer`, the `Host` is one of
  -- ours, and the source is on that host or on the master host. A request under a foreign name is
  -- refused, also where `Host` and `Origin` agree.
  pub check_origin_iff :
      (headers : HeaderMap)
      → (check_origin u authority_host headers ≡ ok) ↔ (
          (url : Text) × Source headers url
          × IsOurs (or_empty (header_str "host" headers))
          × IsSameSite url (or_empty (header_str "host" headers)))
  unfolding check_origin
  check_origin_iff headers = (
    check_sound headers _ _ refl refl,
    λ (url, source, ours, same). check_complete headers url source (ours, same),
  )
