-- ===== src/HtmlEscape/Tokens/Pipeline.antt =====
-- `escape_text` (libs/html_escape.rs) as a pipeline of steps on tokens.
use crackstation_rust.Base.{
  ℕ, true, false, some, List, [], ◌∷◌, map, Text, codes, ◌≡◌, ◌≢◌, refl, arith, Option-cases, inl,
  inr,
}
use crackstation_rust.HtmlEscape.{
  space, newline, carriage_return, entity, html_special_chars, replace_pair, protect_spaces,
  tabs_to_spaces, escape_text,
}
use crackstation_rust.HtmlEscape.Tokens.{Token, chr, hard, write, write_all, swap, lead}
use crackstation_rust.HtmlEscape.Tokens.Replace.{
  replace_pair-write_all, html_special_chars-write_all, entity-space,
}
use crackstation_rust.HtmlEscape.Tokens.Leading.{replace_leading_spaces-write_all}

-- The tokens of an escaped text: a pair of spaces, a space at the start of a line, a space at its
-- end.
unfoldable pub tokens : Text → List Token
tokens s = swap newline (hard ∷ chr newline ∷ []) (
    swap carriage_return (hard ∷ chr carriage_return ∷ [])
      (lead true (swap space (chr space ∷ hard ∷ []) (map chr s))))

module _ (b : ℕ) (new : List Token) (to : Text) where
  replace_step :
      entity b ≡ b ∷ []
      → b ≢ b'&'
      → write_all new ≡ to
      → (ts : List Token) → replace_pair space b to (write_all ts) ≡ write_all (swap b new ts)
  replace_step p q e ts = rw (← e) (replace_pair-write_all b new p q ts)

pub protect_spaces-write_all :
    (s : Text) → protect_spaces (html_special_chars s) ≡ write_all (tokens s)
unfolding protect_spaces tokens
protect_spaces-write_all s =
    let pairs =
      replace_step space (chr space ∷ hard ∷ []) (codes " &nbsp;") entity-space (omega arith)
        (unfold write_all write entity in refl) in
    let cr =
      replace_step carriage_return (hard ∷ chr carriage_return ∷ []) (codes "&nbsp;\r")
        (unfold entity in refl) (omega arith) (unfold write_all write entity in refl) in
    let nl =
      replace_step newline (hard ∷ chr newline ∷ []) (codes "&nbsp;\n") (unfold entity in refl)
        (omega arith) (unfold write_all write entity in refl) in
    rw (html_special_chars-write_all s, pairs, replace_leading_spaces-write_all, cr, nl)

pub escape_text-eq-some :
    (text : Text) (tab_width : ℕ) {out : Text}
    → escape_text text false tab_width ≡ some out
    → (s : Text) × (tabs_to_spaces text tab_width ≡ some s) × (out ≡ write_all (tokens s))
unfolding escape_text
escape_text-eq-some text tab_width {out} h = elim (Option-cases (tabs_to_spaces text tab_width)) [
  | inl panics ↦ absurd (ground arith)
  | inr (s, e) ↦ (s, e, ground (arith, protect_spaces-write_all s))
]
