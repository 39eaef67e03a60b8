-- ===== src/Util/ClientIp.antt =====
-- `client_ip` and `is_https` (libs/util.rs): who decides the client's address.
use mathlib.Core.List.{reverse-append, append_assoc, append-nil}
use crackstation_rust.Base.{
  true, false, Option, none, some, List, [], ◌∷◌, ◌++◌, Text, split, split_last, trim, Lacks, ◌≡◌,
  refl, arith,
}
use crackstation_rust.Http.{HeaderMap, IpAddr, v4, v6, to_canonical}
use crackstation_rust.Util.{is_trusted_proxy, chain_of, proxy_element, or_peer, client_ip}

chain_of-append : (xs ys : List (Option Text)) → chain_of (xs ++ ys) ≡ chain_of xs ++ chain_of ys
unfolding chain_of
chain_of-append [] ys = refl
chain_of-append (none ∷ xs) ys = chain_of-append xs ys
chain_of-append (some x ∷ xs) ys = rw (chain_of-append xs ys, append_assoc)

last_of_chain :
    (parse_ip : Text → Option IpAddr) (xs : List Text) (e : Text)
    → proxy_element parse_ip (xs ++ e ∷ []) ≡ parse_ip (trim e)
unfolding proxy_element
last_of_chain parse_ip xs e = rw (reverse-append xs (e ∷ []))

-- An address counts as our proxy exactly if its canonical form does.
to_canonical_idem : (ip : IpAddr) → to_canonical (to_canonical ip) ≡ to_canonical ip
unfolding to_canonical
to_canonical_idem (v4 a) = refl
to_canonical_idem (v6 a) = ground arith

is_trusted_proxy-to_canonical :
    (ip : IpAddr) → is_trusted_proxy (to_canonical ip) ≡ is_trusted_proxy ip
unfolding is_trusted_proxy
is_trusted_proxy-to_canonical ip = rw (to_canonical_idem ip)

module _ (parse_ip : Text → Option IpAddr) where
  -- A peer that is no proxy of ours is its own client, whatever headers it sends.
  pub client_ip_untrusted :
      (peer : IpAddr) (headers : HeaderMap)
      → is_trusted_proxy peer ≡ false
      → client_ip parse_ip peer headers ≡ to_canonical peer
  unfolding client_ip
  client_ip_untrusted peer headers h = ground (arith, is_trusted_proxy-to_canonical peer)

  client_ip_of_chain :
      (peer : IpAddr) (headers : HeaderMap) (xs : List Text) (e : Text)
      → is_trusted_proxy peer ≡ true
      → chain_of (headers "x-forwarded-for") ≡ xs ++ e ∷ []
      → client_ip parse_ip peer headers ≡ or_peer (to_canonical peer) (parse_ip (trim e))
  unfolding client_ip
  client_ip_of_chain peer headers xs e h k =
      ground (arith, is_trusted_proxy-to_canonical peer, k, last_of_chain parse_ip xs e)

  -- Where the peer is our proxy, and the last line of `X-Forwarded-For`, to which it appended the
  -- address it saw, can be read (`to_str`: it is of visible ASCII), that address alone decides: neither
  -- the lines before nor the elements before have any effect. Of a last line that cannot be read
  -- nothing is stated.
  pub client_ip_of_appended :
      (peer : IpAddr) (headers : HeaderMap) (sent : List (Option Text)) (forged seen : Text)
      → is_trusted_proxy peer ≡ true
      → Lacks b',' seen
      → headers "x-forwarded-for" ≡ sent ++ some (forged ++ b',' ∷ seen) ∷ []
      → client_ip parse_ip peer headers ≡ or_peer (to_canonical peer) (parse_ip (trim seen))
  unfolding chain_of
  client_ip_of_appended peer headers sent forged seen h k e =
      client_ip_of_chain peer headers (chain_of sent ++ split b',' forged) seen h
        (rw (e, chain_of-append, split_last b',' forged seen k, append-nil, append_assoc) refl)
