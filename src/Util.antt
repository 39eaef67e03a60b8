-- ===== src/Util.antt =====
-- src/libs/util.rs: the client's address, the protocol and the grouping of digits.
pub mod ClientIp
pub mod GroupDigits
mod Tests
use mathlib.Core.List.{reverse}
use crackstation_rust.Base.{
  ℕ, zero, suc, ◌+◌, ◌-◌, ◌/◌, ◌%◌, Bool, true, false, ◌&&◌, Option, none, some, List, [], ◌∷◌,
  ◌++◌, Text, codes, ◌==◌, ltb, any, length, text_eq, split, trim, if◌then◌else◌, ◌>>=◌,
}
use crackstation_rust.Http.{HeaderMap, header_str, IpAddr, v4, v6, ip_eq, to_canonical}

abbrev trusted_proxies : List IpAddr
trusted_proxies = v4 0x7f000001 ∷ v6 1 ∷ []

abbrev trusted_hops : ℕ
trusted_hops = 1

unfoldable pub is_trusted_proxy : IpAddr → Bool
unfolding to_canonical
is_trusted_proxy connection_ip = any (ip_eq (to_canonical connection_ip)) trusted_proxies

-- `Iterator::nth`.
nth : List Text → ℕ → Option Text
nth [] i = none
nth (x ∷ xs) zero = some x
nth (x ∷ xs) (suc i) = nth xs i

-- The elements of all the lines, in order.
chain_of : List (Option Text) → List Text
chain_of [] = []
chain_of (none ∷ values) = chain_of values
chain_of (some value ∷ values) = split b',' value ++ chain_of values

abbrev pub or_peer : IpAddr → Option IpAddr → IpAddr
or_peer connection_ip (some ip) = ip
or_peer connection_ip none = connection_ip

-- `<IpAddr as FromStr>::from_str` of the standard library, as a function.
module _ (parse_ip : Text → Option IpAddr) where
  -- The element that our proxy owns, as an address.
  proxy_element : List Text → Option IpAddr
  unfolding nth
  proxy_element chain = do element ← nth (reverse chain) (trusted_hops - 1); parse_ip (trim element)

  -- The two branches on `None` differ in what they log.
  pub client_ip : IpAddr → HeaderMap → IpAddr
  unfolding is_trusted_proxy proxy_element chain_of
  client_ip connection_ip headers =
      let connection_ip = to_canonical connection_ip in
      if is_trusted_proxy connection_ip
      then or_peer connection_ip (proxy_element (chain_of (headers "x-forwarded-for")))
      else connection_ip

abbrev is_https_value : Option Text → Bool
is_https_value none = false
is_https_value (some p) = text_eq p (codes "https")

unfoldable pub is_https : IpAddr → HeaderMap → Bool
unfolding is_trusted_proxy
is_https connection_ip headers =
    if is_trusted_proxy connection_ip
    then is_https_value (header_str "x-forwarded-proto" headers)
    else false

-- `n.to_string()`: 20 digits are enough for a `u64`.
digits_from : ℕ → ℕ → Text → Text
digits_from zero n out = out
digits_from (suc fuel) n out =
    let rest = digits_from fuel (n / 10) ((b'0' + n % 10) ∷ out) in
    if n / 10 == 0 then (b'0' + n) ∷ out else rest

to_string : ℕ → Text
unfolding digits_from
to_string n = digits_from 20 n []

-- The loop of `group_digits`, from index `i` on.
group_from : ℕ → ℕ → Text → Text
group_from len i [] = []
group_from len i (c ∷ digits) =
    let rest = c ∷ group_from len (i + 1) digits in
    if ltb 0 i && (len - i) % 3 == 0 then b',' ∷ rest else rest

pub group_digits : ℕ → Text
unfolding to_string group_from
group_digits n = let digits = to_string n in group_from (length digits) 0 digits
