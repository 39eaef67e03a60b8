-- ===== src/Cracking/NearMisses.antt =====
-- `NearMiss::new` (cracking.rs): where the digest of a near miss is split.
use crackstation_rust.Base.{
  ℕ, zero, suc, ◌≤◌, List, [], ◌∷◌, ◌++◌, map, Text, ascii_lower, take, drop, length,
  append_take-drop, ◌≡◌, ◌≢◌, refl, sym, arith,
}
use crackstation_rust.Cracking.Display.{agreeing, near_miss_new}

-- The first characters of two texts are there and differ in more than their case.
abbrev pub Diverge : Text → Text → Type 0
Diverge (s ∷ _) (a ∷ _) = ascii_lower s ≢ ascii_lower a
Diverge _ _ = Unit

agreeing_same :
    (s t : Text) → map ascii_lower (take (agreeing s t) s) ≡ map ascii_lower (take (agreeing s t) t)
unfolding agreeing
agreeing_same [] t = refl
agreeing_same (a ∷ s) [] = refl
agreeing_same (a ∷ s) (b ∷ t) = ground (arith, agreeing_same s t)

agreeing-Diverge : (s t : Text) → Diverge (drop (agreeing s t) s) (drop (agreeing s t) t)
unfolding agreeing
agreeing-Diverge [] t = tt
agreeing-Diverge (a ∷ s) [] = tt
agreeing-Diverge (a ∷ s) (b ∷ t) = ground (arith, agreeing-Diverge s t)

agreeing-le : (s t : Text) → (agreeing s t ≤ length s) × (agreeing s t ≤ length t)
unfolding agreeing
agreeing-le [] t = omega arith
agreeing-le (a ∷ s) [] = omega arith
agreeing-le (a ∷ s) (b ∷ t) = ground (arith, agreeing-le s t)

pub length-take {ℓ} : {A : Type ℓ} (n : ℕ) (xs : List A) → n ≤ length xs → length (take n xs) ≡ n
length-take zero xs h = refl
length-take (suc n) [] h = absurd (omega arith)
length-take (suc n) (x ∷ xs) h = omega (arith, length-take n xs (omega arith))

-- The two halves are the digest, and the first is the longest part that the submission got right,
-- case aside: it is the start of the submission, and behind it the submission ends, the digest
-- ends, or the next characters differ.
pub near_miss_new_lem :
    (submitted actual : Text)
    → let near = near_miss_new submitted actual in
      let n = length near.matched in
      (near.matched ++ near.rest ≡ actual)
      × (map ascii_lower near.matched ≡ map ascii_lower (take n submitted))
      × (n ≤ length submitted)
      × Diverge (drop n submitted) near.rest
unfolding near_miss_new
near_miss_new_lem s t =
    let (short, fits) = agreeing-le s t in
    rw (length-take (agreeing s t) t fits)
      (append_take-drop (agreeing s t) t, sym (agreeing_same s t), short, agreeing-Diverge s t)
