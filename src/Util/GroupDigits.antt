-- ===== src/Util/GroupDigits.antt =====
-- `group_digits` (libs/util.rs): the digits are kept, and the groups have three.
use mathlib.Core.List.{foldl}
use native.Mathlib.Nat.{pow-suc}
use crackstation_rust.Base.{
  ℕ, zero, suc, ◌+◌, ◌-◌, ◌*◌, ◌/◌, ◌%◌, ◌^◌, ◌<◌, ◌≤◌, not, List, [], ◌∷◌, Text, ◌==◌, keep,
  length, split, All, ◌≡◌, ◌≢◌, refl, arith,
}
use crackstation_rust.Util.{digits_from, to_string, group_from, group_digits}

-- The number that decimal digits spell behind `n`.
abbrev pub value : ℕ → Text → ℕ
value = foldl (λ n c. n * 10 + (c - b'0'))

abbrev pub no_commas : Text → Text
no_commas = keep (λ c. not (c == b','))

abbrev IsDigit : ℕ → Type 0
IsDigit c = (b'0' ≤ c) × (c ≤ b'9')

value-digits_from :
    (fuel n : ℕ) (out : Text)
    → n < 10 ^ fuel
    → 0 < fuel
    → value 0 (digits_from fuel n out) ≡ value n out
unfolding digits_from
value-digits_from zero n out h p = absurd (omega arith)
value-digits_from (suc zero) n out h p = ground arith
value-digits_from (suc (suc fuel)) n out h p =
    ground
      (arith, value-digits_from (suc fuel) (n / 10) ((b'0' + n % 10) ∷ out), pow-suc 10 (suc fuel))

digits_from-IsDigit :
    (fuel n : ℕ) (out : Text) → All IsDigit out → All IsDigit (digits_from fuel n out)
unfolding digits_from
digits_from-IsDigit zero n out h = h
digits_from-IsDigit (suc fuel) n out h =
    ground (arith, digits_from-IsDigit fuel (n / 10) ((b'0' + n % 10) ∷ out))

no_commas-group_from :
    (len i : ℕ) (ds : Text) → All IsDigit ds → no_commas (group_from len i ds) ≡ ds
unfolding group_from
no_commas-group_from len i [] h = refl
no_commas-group_from len i (c ∷ ds) h = ground (arith, no_commas-group_from len (i + 1) ds h.1)

-- Without its commas the grouped text of a `u64` spells the number.
pub value-group_digits : (n : ℕ) → n < 2 ^ 64 → value 0 (no_commas (group_digits n)) ≡ n
unfolding group_digits to_string
value-group_digits n h =
    rw (no_commas-group_from _ 0 _ (digits_from-IsDigit 20 n [] tt))
      (value-digits_from 20 n [] (omega arith) (omega arith))

-- The lengths of the groups behind a prefix: the first has the digits that are left over.
abbrev InGroups : ℕ → List Text → Type 0
InGroups m [] = ⊥
InGroups m (g ∷ gs) = (length g ≡ m % 3) × All (λ h. length h ≡ 3) gs

group_start :
    (m c : ℕ) (r : Text)
    → c ≢ b','
    → suc m % 3 ≡ 0
    → InGroups m (split b',' r)
    → InGroups (suc m) (split b',' (b',' ∷ c ∷ r))
unfolding split
group_start m c r h e k = ground arith

group_more :
    (m c : ℕ) (r : Text)
    → c ≢ b','
    → suc m % 3 ≢ 0
    → InGroups m (split b',' r)
    → InGroups (suc m) (split b',' (c ∷ r))
unfolding split
group_more m c r h e k = ground arith

split-group_from :
    (len i : ℕ) (ds : Text)
    → 0 < i
    → len ≡ i + length ds
    → All IsDigit ds
    → InGroups (length ds) (split b',' (group_from len i ds))
unfolding group_from
split-group_from len i [] h e d = unfold split in (refl, tt)
split-group_from len i (c ∷ ds) h e d =
    let ih = split-group_from len (i + 1) ds (omega arith) (omega arith) d.1 in
    let left : len - i ≡ suc (length ds) = omega arith in
    ground (
      arith,
      left,
      group_start (length ds) c (group_from len (i + 1) ds),
      group_more (length ds) c (group_from len (i + 1) ds),
    )

-- The shape of a grouped number: a first group of one to three digits, and groups of three.
abbrev pub IsGrouped : List Text → Type 0
IsGrouped [] = ⊥
IsGrouped (g ∷ gs) = (1 ≤ length g) × (length g ≤ 3) × All (λ h. length h ≡ 3) gs

group_first :
    (m c : ℕ) (r : Text) → c ≢ b',' → InGroups m (split b',' r) → IsGrouped (split b',' (c ∷ r))
unfolding split
group_first m c r h k = ground arith

group_from-IsGrouped :
    (ds : Text) → ds ≢ [] → All IsDigit ds → IsGrouped (split b',' (group_from (length ds) 0 ds))
unfolding group_from
group_from-IsGrouped [] h d = absurd (h refl)
group_from-IsGrouped (c ∷ ds) h d =
    group_first (length ds) c _ (omega arith)
      (split-group_from _ 1 ds (omega arith) (omega arith) d.1)

digits_from-ne-nil : (fuel n : ℕ) (out : Text) → out ≢ [] → digits_from fuel n out ≢ []
unfolding digits_from
digits_from-ne-nil zero n out h = h
digits_from-ne-nil (suc fuel) n out h =
    ground (arith, digits_from-ne-nil fuel (n / 10) ((b'0' + n % 10) ∷ out))

to_string-ne-nil : (n : ℕ) → to_string n ≢ []
unfolding to_string digits_from
to_string-ne-nil n = ground (arith, digits_from-ne-nil 19 (n / 10) ((b'0' + n % 10) ∷ []))

group_digits-IsGrouped : (n : ℕ) → IsGrouped (split b',' (group_digits n))
unfolding group_digits
group_digits-IsGrouped n =
    group_from-IsGrouped (to_string n) (to_string-ne-nil n)
      (unfold to_string in digits_from-IsDigit 20 n [] tt)

-- The grouped text of a `u64`: without its commas it spells the number, and of the parts between the
-- commas the first has one to three digits, and every other exactly three.
pub group_digits_lem :
    (n : ℕ)
    → n < 2 ^ 64
    → (value 0 (no_commas (group_digits n)) ≡ n) × IsGrouped (split b',' (group_digits n))
group_digits_lem n h = (value-group_digits n h, group_digits-IsGrouped n)
