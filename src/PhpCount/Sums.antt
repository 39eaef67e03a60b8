-- ===== src/PhpCount/Sums.antt =====
-- Sums over threads, for the tally of the visits of libs/phpcount.rs.
use crackstation_rust.Base.{
  ℕ, zero, suc, ◌+◌, ◌≤◌, ◌<◌, ◌==◌, true, false, Bool-cases, inl, inr, ◌≡◌, refl, ap, arith,
}

-- The sum over the first threads.
abbrev pub total : (ℕ → ℕ) → ℕ → ℕ
total f zero = 0
total f (suc n) = f n + total f n

pub total_le : (f g : ℕ → ℕ) (n : ℕ) → ((j : ℕ) → f j ≤ g j) → total f n ≤ total g n
total_le f g zero h = omega arith
total_le f g (suc n) h = omega (arith, h n, total_le f g n h)

other : (i j : ℕ) → j < i → (i == j) ≡ false
other i j h = ground arith

pub same : (i j : ℕ) → (i == j) ≡ true → i ≡ j
same i j h = ground arith

total_below :
    (f g : ℕ → ℕ) (i n : ℕ)
    → n ≤ i
    → ((j : ℕ) → (i == j) ≡ false → g j ≡ f j)
    → total g n ≡ total f n
total_below f g i zero le h = refl
total_below f g i (suc n) le h =
    omega (arith, h n (other i n (omega arith)), total_below f g i n (omega arith) h)

-- A change of one of the terms.
pub total_change :
    (f g : ℕ → ℕ) (i n : ℕ)
    → f i ≤ g i
    → ((j : ℕ) → (i == j) ≡ false → g j ≡ f j)
    → total g n + f i ≤ total f n + g i
total_change f g i zero le h = omega (arith, le)
total_change f g i (suc n) le h = elim (Bool-cases (i == n)) [
  | inr e ↦ omega (arith, h n e, total_change f g i n le h)
  | inl e ↦
      let here : i ≡ n = same i n e in
      let same_f : f i ≡ f n = ap f here in
      let same_g : g i ≡ g n = ap g here in
      omega (arith, same_f, same_g, total_below f g i n (omega (arith, here)) h)
]

pub total_zero : (n : ℕ) → total (λ i. 0) n ≡ 0
total_zero zero = refl
total_zero (suc n) = omega (arith, total_zero n)

pub itself : (i : ℕ) → (i == i) ≡ true
itself i = ground arith

pub after_change :
    (base before after sum sum_now old new new_here : ℕ)
    → base + sum ≤ before
    → sum_now + old ≤ sum + new
    → new ≡ new_here
    → before + new_here ≤ after + old
    → base + sum_now ≤ after
after_change base before after sum sum_now old new new_here h k e a = omega arith
