-- ===== src/HtmlEscape/Tokens/Spaces.antt =====
-- The plain spaces among the tokens of an escaped text (libs/html_escape.rs).
use crackstation_rust.Base.{
  ℕ, Bool, true, false, ◌&&◌, List, [], ◌∷◌, map, Text, ◌≡◌, ◌⊎◌, inl, inr, refl, arith, Bool-cases,
}
use crackstation_rust.HtmlEscape.{space, newline, carriage_return}
use crackstation_rust.HtmlEscape.Tokens.{Token, chr, hard, is_chr, swap, lead}
use crackstation_rust.HtmlEscape.Tokens.Replace.{swap_hit, swap_miss}
use crackstation_rust.HtmlEscape.Tokens.Pipeline.{tokens}

-- No `b` stands directly behind an `a`.
abbrev pub Apart : ℕ → ℕ → List Token → Type 0
Apart a b [] = Unit
Apart a b (t ∷ []) = Unit
Apart a b (t ∷ u ∷ ts) = ((is_chr a t && is_chr b u) ≡ false) × Apart a b (u ∷ ts)

-- The same tokens, some of them made hard spaces.
abbrev pub Hardens : List Token → List Token → Type 0
Hardens [] [] = Unit
Hardens (t ∷ ts) (u ∷ us) = ((u ≡ t) ⊎ (u ≡ hard)) × Hardens ts us
Hardens _ _ = ⊥

Hardens-refl : (ts : List Token) → Hardens ts ts
Hardens-refl [] = tt
Hardens-refl (t ∷ ts) = (inl refl, Hardens-refl ts)

module _ (a b : ℕ) where
  Apart-Hardens : (ts us : List Token) → Apart a b ts → Hardens ts us → Apart a b us
  Apart-Hardens [] [] h k = tt
  Apart-Hardens [] (u ∷ us) h k = absurd k
  Apart-Hardens (t ∷ ts) [] h k = tt
  Apart-Hardens (t ∷ ts) (u ∷ []) h k = tt
  Apart-Hardens (t ∷ []) (u ∷ v ∷ us) h k = absurd k.1
  Apart-Hardens (t ∷ t' ∷ ts) (u ∷ v ∷ us) h k =
      (ground arith, Apart-Hardens (t' ∷ ts) (v ∷ us) h.1 k.1)

  Apart-free :
      (t : Token) (us : List Token) → is_chr a t ≡ false → Apart a b us → Apart a b (t ∷ us)
  Apart-free t [] h k = tt
  Apart-free t (u ∷ us) h k = (ground arith, k)

  Apart-cons :
      (t u : Token) (ts us : List Token)
      → (is_chr a t && is_chr b u) ≡ false
      → Hardens (u ∷ ts) us
      → Apart a b us
      → Apart a b (t ∷ us)
  Apart-cons t u ts [] h k l = tt
  Apart-cons t u ts (v ∷ us) h k l = (ground arith, l)

module _ (b : ℕ) (n m : Token) where
  abbrev new : List Token
  new = n ∷ m ∷ []

  swap-Hardens :
      Hardens (chr space ∷ chr b ∷ []) new → (ts : List Token) → Hardens ts (swap b new ts)
  unfolding swap
  swap-Hardens fits [] = tt
  swap-Hardens fits (t ∷ []) = (inl refl, tt)
  swap-Hardens fits (t ∷ u ∷ ts) = ground (arith, swap-Hardens fits ts, swap-Hardens fits (u ∷ ts))

  swap-Apart :
      Hardens (chr space ∷ chr b ∷ []) new
      → (is_chr space n && is_chr b m) ≡ false
      → is_chr space m ≡ false
      → (ts : List Token) → Apart space b (swap b new ts)
  unfolding swap
  swap-Apart fits p q [] = tt
  swap-Apart fits p q (t ∷ []) = tt
  swap-Apart fits p q (t ∷ u ∷ ts) = elim (Bool-cases (is_chr space t && is_chr b u)) [
    | inl hit ↦
        let ih = swap-Apart fits p q ts in
        rw (swap_hit b new t u ts hit) (p, Apart-free space b m (swap b new ts) q ih)
    | inr miss ↦
        let ih = swap-Apart fits p q (u ∷ ts) in
        rw (swap_miss b new t u ts miss)
          (Apart-cons space b t u ts _ miss (swap-Hardens fits (u ∷ ts)) ih)
  ]

lead-Hardens : (b : Bool) (ts : List Token) → Hardens ts (lead b ts)
unfolding lead
lead-Hardens b [] = tt
lead-Hardens b (t ∷ ts) = ground (arith, lead-Hardens (is_chr newline t) ts)

lead-Apart : (b : Bool) (ts : List Token) → Apart newline space (lead b ts)
unfolding lead
lead-Apart b [] = tt
lead-Apart b (t ∷ []) = tt
lead-Apart b (t ∷ u ∷ ts) = ground (arith, lead-Apart (is_chr newline t) (u ∷ ts))

abbrev pub NoLead : List Token → Type 0
NoLead [] = Unit
NoLead (t ∷ ts) = is_chr space t ≡ false

lead-NoLead : (ts : List Token) → NoLead (lead true ts)
unfolding lead
lead-NoLead [] = tt
lead-NoLead (t ∷ ts) = ground arith

NoLead-Hardens : (ts us : List Token) → NoLead ts → Hardens ts us → NoLead us
NoLead-Hardens [] [] h k = tt
NoLead-Hardens [] (u ∷ us) h k = absurd k
NoLead-Hardens (t ∷ ts) [] h k = tt
NoLead-Hardens (t ∷ ts) (u ∷ us) h k = ground arith

abbrev n : ℕ
n = newline

abbrev r : ℕ
r = carriage_return

-- No two plain spaces are neighbours, and none begins or ends a line.
abbrev pub IsSpaced : List Token → Type 0
IsSpaced ts =
    Apart space space ts
    × Apart newline space ts
    × Apart space newline ts
    × Apart space carriage_return ts
    × NoLead ts

pub IsSpaced-Hardens : (ts us : List Token) → IsSpaced ts → Hardens ts us → IsSpaced us
IsSpaced-Hardens ts us (a, b, c, d, e) h = (
  Apart-Hardens _ _ ts us a h,
  Apart-Hardens _ _ ts us b h,
  Apart-Hardens _ _ ts us c h,
  Apart-Hardens _ _ ts us d h,
  NoLead-Hardens ts us e h,
)

pub tokens-IsSpaced : (s : Text) → IsSpaced (tokens s)
unfolding tokens
tokens-IsSpaced s =
    let ts = swap space (chr space ∷ hard ∷ []) (map chr s) in
    let us = lead true ts in
    let vs = swap r (hard ∷ chr r ∷ []) us in
    let ws = swap n (hard ∷ chr n ∷ []) vs in
    let h : Hardens ts us = lead-Hardens true ts in
    let k : Hardens us vs = swap-Hardens r hard (chr r) (inr refl, (inl refl, tt)) us in
    let l : Hardens vs ws = swap-Hardens n hard (chr n) (inr refl, (inl refl, tt)) vs in
    let pairs =
      swap-Apart space (chr space) hard (inl refl, (inr refl, tt)) refl refl (map chr s) in
    let cr = swap-Apart r hard (chr r) (inr refl, (inl refl, tt)) refl refl us in
    let nl = swap-Apart n hard (chr n) (inr refl, (inl refl, tt)) refl refl vs in
    (
      Apart-Hardens _ _ vs ws (Apart-Hardens _ _ us vs (Apart-Hardens _ _ ts us pairs h) k) l,
      Apart-Hardens _ _ vs ws (Apart-Hardens _ _ us vs (lead-Apart true ts) k) l,
      nl,
      Apart-Hardens _ _ vs ws cr l,
      NoLead-Hardens vs ws (NoLead-Hardens us vs (lead-NoLead ts) k) l,
    )
