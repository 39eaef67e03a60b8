-- ===== src/Middleware/BufferBody/Announced.antt =====
-- The length that a request announces to the layer of buffer_body.rs, as a number in the text.
use crackstation_rust.Base.{
  ℕ, ◌+◌, ◌-◌, ◌*◌, ◌^◌, ◌≤◌, ◌<◌, true, false, ◌&&◌, some, [], ◌∷◌, Text, ltb, leb, is_empty,
  Bool-cases, Option-cases, inl, inr, ◌≡◌, ◌↔◌, refl, arith,
}
use crackstation_rust.Http.{HeaderMap, header_str}
use crackstation_rust.Middleware.BufferBody.{
  parse_digits, without_plus, parse_u64, declares_oversized_body,
}

-- The value of digits behind a number.
abbrev pub decimal : ℕ → Text → ℕ
decimal n [] = n
decimal n (c ∷ s) = decimal (n * 10 + (c - b'0')) s

abbrev pub AllDigits : Text → Type 0
AllDigits [] = Unit
AllDigits (c ∷ s) = (b'0' ≤ c) × (c ≤ b'9') × AllDigits s

-- `Content-Length` is a numeral, with a `+` before it or without, of a `u64` above 128 KiB.
pub record AnnouncesMore (headers : HeaderMap) : Type 0 where
  pub value : Text
  pub announced : header_str "content-length" headers ≡ some value
  pub given : is_empty (without_plus value) ≡ false
  pub digits : AllDigits (without_plus value)
  pub fits : decimal 0 (without_plus value) < 2 ^ 64
  pub more : 131072 < decimal 0 (without_plus value)

decimal_ge : (n : ℕ) (s : Text) → n ≤ decimal n s
decimal_ge n [] = omega arith
decimal_ge n (c ∷ s) = omega (arith, decimal_ge (n * 10 + (c - b'0')) s)

parse_digits-some :
    (n : ℕ) (s : Text) → AllDigits s → decimal n s < 2 ^ 64 → parse_digits n s ≡ some (decimal n s)
unfolding parse_digits
parse_digits-some n [] d h = refl
parse_digits-some n (c ∷ s) (low, high, d) h =
    let rest = parse_digits-some (n * 10 + (c - b'0')) s d h in
    let below = decimal_ge (n * 10 + (c - b'0')) s in
    let e_1 : leb b'0' c ≡ true = ground arith in
    let e_2 : leb c b'9' ≡ true = ground arith in
    let e_3 : ltb (n * 10 + (c - b'0')) (2 ^ 64) ≡ true = ground (arith, below, h) in
    rw (e_1, e_2, e_3) rest

parse_digits_sound :
    (n m : ℕ) (s : Text)
    → n < 2 ^ 64
    → parse_digits n s ≡ some m
    → AllDigits s × (decimal n s ≡ m) × (m < 2 ^ 64)
unfolding parse_digits
parse_digits_sound n m [] h e = let same : n ≡ m = cc in (tt, same, rw (← same) h)
parse_digits_sound n m (c ∷ s) h e =
    elim (Bool-cases (leb b'0' c && leb c b'9' && ltb (n * 10 + (c - b'0')) (2 ^ 64))) [
      | inr bad ↦ cc (rw bad at e)
      | inl good ↦
          let (d, same, below) =
            parse_digits_sound (n * 10 + (c - b'0')) m s (ground arith) (rw good at e) in
          ((ground arith, ground arith, d), same, below)
    ]

parse_u64_sound :
    (n : ℕ) (s : Text)
    → parse_u64 s ≡ some n
    → (is_empty (without_plus s) ≡ false)
      × AllDigits (without_plus s)
      × (decimal 0 (without_plus s) ≡ n)
      × (n < 2 ^ 64)
unfolding parse_u64
parse_u64_sound n s e = elim (Bool-cases (is_empty (without_plus s))) [
  | inl nothing ↦ cc (rw nothing at e)
  | inr given ↦
      let (digits, same, fits) =
        parse_digits_sound 0 n (without_plus s) (omega arith) (rw given at e) in
      (given, digits, same, fits)
]

-- The test of the layer is whether the request announces more than 128 KiB.
pub declares_oversized_body_iff :
    (headers : HeaderMap) → (declares_oversized_body headers ≡ true) ↔ AnnouncesMore headers
unfolding declares_oversized_body
declares_oversized_body_iff headers = (
  λ e. elim (Option-cases (header_str "content-length" headers)) [
    | inl unset ↦ cc (rw unset at e)
    | inr (value, found) ↦ elim (Option-cases (parse_u64 value)) [
      | inl no_number ↦ cc (rw (found, no_number) at e)
      | inr (n, parsed) ↦
          let (given, digits, same, fits) = parse_u64_sound n value parsed in
          let over : ltb 131072 n ≡ true = rw (found, parsed) at e in
          record {
            value = value;
            announced = found;
            given = given;
            digits = digits;
            fits = rw same fits;
            more = rw same (ground arith);
          }
    ]
  ],
  λ h.
      let parsed = parse_digits-some 0 (without_plus h.value) h.digits h.fits in
      let over : ltb 131072 (decimal 0 (without_plus h.value)) ≡ true = ground (arith, h.more) in
      rw h.announced (unfold parse_u64 in rw (h.given, parsed) over),
)

pub not_AnnouncesMore :
    (headers : HeaderMap) → declares_oversized_body headers ≡ false → ¬ AnnouncesMore headers
not_AnnouncesMore headers small h = cc (small, (declares_oversized_body_iff headers).1 h)
