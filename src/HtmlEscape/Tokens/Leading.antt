-- ===== src/HtmlEscape/Tokens/Leading.antt =====
-- `replace_leading_spaces` (libs/html_escape.rs) on tokens.
use crackstation_rust.Base.{
  Bool, true, false, List, [], ◌∷◌, ◌++◌, Text, Lacks, ◌≡◌, ◌≢◌, refl, arith, Bool-cases, inl, inr,
}
use crackstation_rust.HtmlEscape.{space, newline, entity, leading_from, replace_leading_spaces}
use crackstation_rust.HtmlEscape.Tokens.{Token, chr, hard, write, write_all, is_chr, lead}
use crackstation_rust.HtmlEscape.Tokens.Replace.{entity-space, write_of_is_chr}

leading_from-append :
    (b : Bool) (p s : Text)
    → Lacks space p
    → Lacks newline p
    → p ≢ []
    → leading_from b (p ++ s) ≡ p ++ leading_from false s
unfolding leading_from
leading_from-append b [] s h k n = absurd (n refl)
leading_from-append b (c ∷ []) s h k n = ground arith
leading_from-append b (c ∷ d ∷ p) s h k n =
    ground (arith, leading_from-append false (d ∷ p) s h.1 k.1)

write_other :
    (t : Token)
    → is_chr space t ≡ false
    → is_chr newline t ≡ false
    → Lacks space (write t) × Lacks newline (write t) × (write t ≢ [])
unfolding write entity
write_other (chr c) h k = ground arith
write_other hard h k = ground arith

entity-newline : entity newline ≡ newline ∷ []
unfolding entity
entity-newline = refl

leading_from-write_all :
    (b : Bool) (ts : List Token) → leading_from b (write_all ts) ≡ write_all (lead b ts)
unfolding write_all lead write leading_from
leading_from-write_all b [] = refl
leading_from-write_all b (t ∷ ts) = elim (Bool-cases (is_chr space t)) [
  | inl at_space ↦
      let w = write_of_is_chr space t entity-space at_space in
      ground (arith, w, leading_from-write_all (is_chr newline t) ts)
  | inr other ↦ elim (Bool-cases (is_chr newline t)) [
    | inl at_newline ↦
        let w = write_of_is_chr newline t entity-newline at_newline in
        ground (arith, w, leading_from-write_all (is_chr newline t) ts)
    | inr plain_t ↦
        let (x, y, z) = write_other t other plain_t in
        rw (leading_from-append b (write t) (write_all ts) x y z)
          (ground (arith, leading_from-write_all (is_chr newline t) ts))
  ]
]

pub replace_leading_spaces-write_all :
    (ts : List Token) → replace_leading_spaces (write_all ts) ≡ write_all (lead true ts)
unfolding replace_leading_spaces
replace_leading_spaces-write_all = leading_from-write_all true
