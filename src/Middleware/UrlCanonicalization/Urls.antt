-- ===== src/Middleware/UrlCanonicalization/Urls.antt =====
-- The URLs that url_canonicalization.rs builds can be read back in one way only.
use crackstation_rust.Base.{
  ℕ, Bool, true, false, Option, none, some, [], ◌∷◌, ◌++◌, Text, codes, Lacks, append_assoc, ◌≡◌,
  refl, sym, ap, ◌∙◌, arith, if◌then◌else◌,
}
use crackstation_rust.Registry.Laws.{IsPath}
use crackstation_rust.Middleware.UrlCanonicalization.{build_redirect_url, append_query}

abbrev scheme : Bool → Text
scheme https = (if https then codes "https" else codes "http") ++ codes "://"

build_redirect_url_parts :
    (https : Bool) (host path : Text) (query : Option Text)
    → build_redirect_url https host path query ≡ scheme https ++ (host ++ append_query path query)
unfolding build_redirect_url append_query
build_redirect_url_parts https host path none = simp append_assoc
build_redirect_url_parts https host path (some q) = simp append_assoc

scheme_unique : (a b : Bool) (s t : Text) → scheme a ++ s ≡ scheme b ++ t → (a ≡ b) × (s ≡ t)
scheme_unique true true s t h = ground arith
scheme_unique true false s t h = ground arith
scheme_unique false true s t h = ground arith
scheme_unique false false s t h = ground arith

unique_at :
    (sep : ℕ) (a b s t : Text)
    → Lacks sep a
    → Lacks sep b
    → a ++ sep ∷ s ≡ b ++ sep ∷ t
    → (a ≡ b) × (s ≡ t)
unique_at sep [] [] s t h k e = ground arith
unique_at sep [] (y ∷ b) s t h k e = ground arith
unique_at sep (x ∷ a) [] s t h k e = ground arith
unique_at sep (x ∷ a) (y ∷ b) s t h k e = ground (arith, unique_at sep a b s t h.1 k.1)

not_behind : (sep : ℕ) (a b s : Text) → Lacks sep a → a ≡ b ++ sep ∷ s → ⊥
not_behind sep [] [] s h e = ground arith
not_behind sep [] (y ∷ b) s h e = ground arith
not_behind sep (x ∷ a) [] s h e = ground arith
not_behind sep (x ∷ a) (y ∷ b) s h e = not_behind sep a b s h.1 (ground arith)

query_unique :
    (p q : Text) (x y : Option Text)
    → Lacks b'?' p
    → Lacks b'?' q
    → append_query p x ≡ append_query q y
    → (p ≡ q) × (x ≡ y)
unfolding append_query
query_unique p q none none h k e = (e, refl)
query_unique p q none (some y) h k e = absurd (not_behind b'?' p q y h (simp append_assoc at e))
query_unique p q (some x) none h k e =
    absurd (not_behind b'?' q p x k (sym (simp append_assoc at e)))
query_unique p q (some x) (some y) h k e =
    let (same, rest) = unique_at b'?' p q x y h k (simp append_assoc at e) in (same, ap some rest)

host_then_path :
    (g : Text) (c : ℕ) (p : Text) (x : Option Text)
    → c ≡ b'/'
    → g ++ append_query (c ∷ p) x ≡ g ++ b'/' ∷ append_query p x
unfolding append_query
host_then_path g c p none h = rw h refl
host_then_path g c p (some x) h = rw h refl

-- Scheme, host, path and query can be read back from the URL.
pub build_redirect_url_unique :
    (a b : Bool) (g h p q : Text) (x y : Option Text)
    → Lacks b'/' g
    → Lacks b'/' h
    → IsPath p
    → IsPath q
    → build_redirect_url a g p x ≡ build_redirect_url b h q y
    → (a ≡ b) × (g ≡ h) × (p ≡ q) × (x ≡ y)
build_redirect_url_unique a b g h [] q x y lg lh ip iq e = absurd ip
build_redirect_url_unique a b g h (c ∷ p) [] x y lg lh ip iq e = absurd iq
build_redirect_url_unique a b g h (c ∷ p) (d ∷ q) x y lg lh ip iq e =
    let (same_scheme, rest) =
      scheme_unique a b (g ++ append_query (c ∷ p) x) (h ++ append_query (d ∷ q) y) (
        sym (build_redirect_url_parts a g (c ∷ p) x)
        ∙ e
        ∙ build_redirect_url_parts b h (d ∷ q) y) in
    let (same_host, tails) =
      unique_at b'/' g h (append_query p x) (append_query q y) lg lh
        (sym (host_then_path g c p x ip.0) ∙ rest ∙ host_then_path h d q y iq.0) in
    let (same_path, same_query) = query_unique p q x y ip.1 iq.1 tails in
    (same_scheme, same_host, ground (arith, same_path), same_query)

-- A query that is already behind the path is the query.
pub build_redirect_url-append_query :
    (https : Bool) (host path : Text) (query : Option Text)
    → build_redirect_url https host (append_query path query) none
      ≡ build_redirect_url https host path query
unfolding append_query build_redirect_url
build_redirect_url-append_query https host path none = refl
build_redirect_url-append_query https host path (some q) = simp append_assoc

-- What stands between the scheme and the path is the host.
pub build_redirect_url_secure :
    (host path : Text) (query : Option Text)
    → IsPath path
    → (rest : Text) × (build_redirect_url true host path query
        ≡ codes "https://" ++ (host ++ b'/' ∷ rest))
build_redirect_url_secure host [] query h = absurd h
build_redirect_url_secure host (c ∷ p) query h = (
  append_query p query,
  build_redirect_url_parts true host (c ∷ p) query
      ∙ ap (λ s. codes "https://" ++ s) (host_then_path host c p query h.0),
)
