-- ===== src/HtmlEscape/Tokens/Replace.antt =====
-- `html_special_chars` and `replace` of two characters (libs/html_escape.rs) on tokens.
use crackstation_rust.Base.{
  ℕ, true, false, ◌&&◌, List, [], ◌∷◌, ◌++◌, map, Text, Lacks, ◌≡◌, ◌≢◌, refl, ap, arith,
  append_assoc, Bool-cases, inl, inr,
}
use crackstation_rust.HtmlEscape.{space, entity, html_special_chars, replace_pair}
use crackstation_rust.HtmlEscape.Tokens.{Token, chr, hard, write, write_all, is_chr, swap}

pub write_all-append : (ts us : List Token) → write_all (ts ++ us) ≡ write_all ts ++ write_all us
unfolding write_all
write_all-append [] us = refl
write_all-append (t ∷ ts) us = simp (write_all-append ts us, append_assoc)

pub html_special_chars-write_all : (s : Text) → html_special_chars s ≡ write_all (map chr s)
unfolding html_special_chars write_all write
html_special_chars-write_all [] = refl
html_special_chars-write_all (c ∷ s) = rw (html_special_chars-write_all s)

-- Only a space is written with a space in it.
write-Lacks-space : (t : Token) → is_chr space t ≡ false → Lacks space (write t)
unfolding write entity
write-Lacks-space (chr c) h = ground arith
write-Lacks-space hard h = omega arith

module _ (a b : ℕ) (to : Text) where
  replace_pair-skip :
      (x : ℕ) (s : Text) → x ≢ a → replace_pair a b to (x ∷ s) ≡ x ∷ replace_pair a b to s
  unfolding replace_pair
  replace_pair-skip x [] h = refl
  replace_pair-skip x (y ∷ s) h = ground arith

  replace_pair-append :
      (p s : Text) → Lacks a p → replace_pair a b to (p ++ s) ≡ p ++ replace_pair a b to s
  replace_pair-append [] s _ = refl
  replace_pair-append (x ∷ p) s (h, hs) =
      rw (replace_pair-skip x (p ++ s) h, replace_pair-append p s hs)

module _ (b : ℕ) (new : List Token) where
  pub swap_hit :
      (t u : Token) (ts : List Token)
      → (is_chr space t && is_chr b u) ≡ true
      → swap b new (t ∷ u ∷ ts) ≡ new ++ swap b new ts
  unfolding swap
  swap_hit t u ts h = ground arith

  pub swap_miss :
      (t u : Token) (ts : List Token)
      → (is_chr space t && is_chr b u) ≡ false
      → swap b new (t ∷ u ∷ ts) ≡ t ∷ swap b new (u ∷ ts)
  unfolding swap
  swap_miss t u ts h = ground arith

abbrev pub first : Text → ℕ
first [] = 0
first (c ∷ s) = c

abbrev pub rest : Text → Text
rest [] = []
rest (c ∷ s) = s

pub write-first : (u : Token) → write u ≡ first (write u) ∷ rest (write u)
unfolding write entity
write-first (chr c) = ground arith
write-first hard = refl

pub first-write : (b : ℕ) (u : Token) → b ≢ b'&' → is_chr b u ≡ false → first (write u) ≢ b
unfolding write entity
first-write b (chr c) n h = ground arith
first-write b hard n h = ground arith

pub write_of_is_chr : (b : ℕ) (u : Token) → entity b ≡ b ∷ [] → is_chr b u ≡ true → write u ≡ b ∷ []
unfolding write
write_of_is_chr b (chr c) p h = let e : c ≡ b = ground arith in rw e p
write_of_is_chr b hard p h = cc

pub entity-space : entity space ≡ space ∷ []
unfolding entity
entity-space = refl

-- The step on the text is the step on the tokens, if `b` is written as itself.
module _ (b : ℕ) (new : List Token) (b_plain : entity b ≡ b ∷ []) (b_mark : b ≢ b'&') where
  abbrev to : Text
  to = write_all new

  replace_pair_other :
      (u : Token) (s : Text)
      → is_chr b u ≡ false
      → replace_pair space b to (space ∷ write u ++ s)
        ≡ space ∷ replace_pair space b to (write u ++ s)
  replace_pair_other u s h =
      rw (write-first u) (unfold replace_pair in ground (arith, first-write b u b_mark h))

  pub replace_pair-write_all :
      (ts : List Token) → replace_pair space b to (write_all ts) ≡ write_all (swap b new ts)
  unfolding write_all
  replace_pair-write_all [] = unfold replace_pair swap in refl
  replace_pair-write_all (t ∷ []) =
      unfold swap in
      elim (Bool-cases (is_chr space t)) [
        | inr other ↦
            rw (replace_pair-append space b to _ [] (write-Lacks-space t other))
              (unfold replace_pair in refl)
        | inl at_space ↦
            rw (write_of_is_chr space t entity-space at_space) (unfold replace_pair in refl)
      ]
  replace_pair-write_all (t ∷ u ∷ ts) = elim (Bool-cases (is_chr space t)) [
    | inr other ↦
        rw
          (
            replace_pair-append space b to _ _ (write-Lacks-space t other),
            swap_miss b new t u ts (ground arith),
          )
          (ap (λ s. write t ++ s) (replace_pair-write_all (u ∷ ts)))
    | inl at_space ↦ elim (Bool-cases (is_chr b u)) [
      | inl at_b ↦
          rw
            (
              swap_hit b new t u ts (ground arith),
              write_all-append,
              ← replace_pair-write_all ts,
              write_of_is_chr space t entity-space at_space,
              write_of_is_chr b u b_plain at_b,
            )
            (unfold replace_pair in ground arith)
      | inr other ↦
          rw
            (
              swap_miss b new t u ts (ground arith),
              write_of_is_chr space t entity-space at_space,
              replace_pair_other u (write_all ts) other,
            )
            (ap (λ s. space ∷ s) (replace_pair-write_all (u ∷ ts)))
    ]
  ]
