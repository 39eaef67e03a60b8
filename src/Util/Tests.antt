-- ===== src/Util/Tests.antt =====
-- Runs of libs/util.rs.
use crackstation_rust.Base.{
  codes, [], ◌∷◌, ◌≡◌, refl, true, some, none, text_eq, if◌then◌else◌, arith, split,
}
use crackstation_rust.Http.{HeaderMap, v4, to_canonical}
use crackstation_rust.Fixtures.{parse_seven, headers_of}
use crackstation_rust.Util.{is_trusted_proxy, client_ip, group_digits}
use crackstation_rust.Util.ClientIp.{client_ip_of_appended}
use crackstation_rust.Util.GroupDigits.{value, no_commas, IsGrouped, group_digits_lem}

grouped_millions : group_digits 1234567 ≡ codes "1,234,567"
unfolding group_digits
grouped_millions = refl

grouped_maximum : group_digits 18446744073709551615 ≡ codes "18,446,744,073,709,551,615"
unfolding group_digits
grouped_maximum = refl

group_digits_lem_example :
    (value 0 (no_commas (group_digits 1234567)) ≡ 1234567)
    × IsGrouped (split b',' (group_digits 1234567))
group_digits_lem_example = group_digits_lem 1234567 (omega arith)

abbrev forged : HeaderMap
forged = headers_of (("x-forwarded-for", "1.1.1.1, 0.0.0.7") ∷ [])

local_proxy : is_trusted_proxy (v4 0x7f000001) ≡ true
unfolding is_trusted_proxy to_canonical
local_proxy = refl

-- A last line that cannot be read is passed over: the line before decides.
abbrev unreadable : HeaderMap
unreadable name =
    if text_eq (codes name) (codes "x-forwarded-for")
    then some (codes "0.0.0.7") ∷ none ∷ []
    else []

line_before_decides : client_ip parse_seven (v4 0x7f000001) unreadable ≡ v4 7
unfolding client_ip is_trusted_proxy to_canonical split
line_before_decides = refl

client_ip_of_appended_example : client_ip parse_seven (v4 0x7f000001) forged ≡ v4 7
client_ip_of_appended_example =
    client_ip_of_appended parse_seven (v4 0x7f000001) forged [] (codes "1.1.1.1") (codes " 0.0.0.7")
      local_proxy (omega arith) refl
