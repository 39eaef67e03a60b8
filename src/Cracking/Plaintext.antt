-- ===== src/Cracking/Plaintext.antt =====
-- `CrackMatch::plaintext_html` (cracking.rs) on the tokens of the escaper.
use mathlib.Core.List.{cons-ne-nil}
use crackstation_rust.Base.{
  ℕ, false, none, some, List, [], ◌∷◌, ◌++◌, map, Text, if◌then◌else◌, strip_suffix, ◌≡◌, ◌≢◌, refl,
  ap, arith, append-nil, Option-cases, inl, inr, All,
}
use crackstation_rust.HtmlEscape.{space, entity, escape_text}
use crackstation_rust.HtmlEscape.Tokens.{Token, chr, hard, plain, write, write_all, is_chr}
use crackstation_rust.HtmlEscape.Tokens.Replace.{write-first}
use crackstation_rust.HtmlEscape.Tokens.Pipeline.{tokens, protect_spaces-write_all}
use crackstation_rust.HtmlEscape.TabStops.{expanded, tabs_to_spaces-eq-expanded}
use crackstation_rust.HtmlEscape.Tokens.Spaces.{Hardens, IsSpaced-Hardens, tokens-IsSpaced}
use crackstation_rust.HtmlEscape.Tokens.Shown.{IsShown, write_all-IsShown}
use crackstation_rust.HtmlEscape.Tokens.Decode.{
  decode, decode-write_all, plain-tokens, IsHarmless, write_all-IsHarmless,
}
use crackstation_rust.Cracking.Results.{CrackMatch}
use crackstation_rust.Cracking.Display.{protect_end, plaintext_html}

harden_last : List Token → List Token
harden_last [] = []
harden_last (t ∷ []) = (if is_chr space t then hard else t) ∷ []
harden_last (t ∷ u ∷ ts) = t ∷ harden_last (u ∷ ts)

protect_end-cons : (c : ℕ) (s : Text) → s ≢ [] → protect_end (c ∷ s) ≡ c ∷ protect_end s
unfolding protect_end strip_suffix
protect_end-cons c [] h = absurd (h refl)
protect_end-cons c (d ∷ s) h = elim (Option-cases (strip_suffix space (d ∷ s))) [
  | inl e ↦ rw e refl
  | inr (x, e) ↦ rw e refl
]

protect_end-append : (p s : Text) → s ≢ [] → protect_end (p ++ s) ≡ p ++ protect_end s
protect_end-append [] s h = refl
protect_end-append (c ∷ []) s h = protect_end-cons c s h
protect_end-append (c ∷ d ∷ p) s h =
    rw (protect_end-cons c ((d ∷ p) ++ s) (cons-ne-nil d (p ++ s)), protect_end-append (d ∷ p) s h)

write_all-ne-nil : (t : Token) (ts : List Token) → write_all (t ∷ ts) ≢ []
unfolding write_all
write_all-ne-nil t ts = rw (write-first t) (cons-ne-nil _ _)

protect_end-write : (t : Token) → protect_end (write t) ≡ write (if is_chr space t then hard else t)
unfolding protect_end strip_suffix write entity
protect_end-write (chr c) = ground arith
protect_end-write hard = refl

protect_end-write_all : (ts : List Token) → protect_end (write_all ts) ≡ write_all (harden_last ts)
unfolding write_all harden_last
protect_end-write_all [] = unfold protect_end strip_suffix in refl
protect_end-write_all (t ∷ []) = rw (append-nil, append-nil) (protect_end-write t)
protect_end-write_all (t ∷ u ∷ ts) =
    rw
      (
        protect_end-append (write t) (write_all (u ∷ ts)) (write_all-ne-nil u ts),
        protect_end-write_all (u ∷ ts),
      )
      refl

plain-harden_last : (ts : List Token) → map plain (harden_last ts) ≡ map plain ts
unfolding harden_last plain
plain-harden_last [] = refl
plain-harden_last (t ∷ []) = ground arith
plain-harden_last (t ∷ u ∷ ts) = rw (plain-harden_last (u ∷ ts))

Hardens-harden_last : (ts : List Token) → Hardens ts (harden_last ts)
unfolding harden_last
Hardens-harden_last [] = tt
Hardens-harden_last (t ∷ []) = ground arith
Hardens-harden_last (t ∷ u ∷ ts) = (inl refl, Hardens-harden_last (u ∷ ts))

-- The last character, if there is one, is no space.
abbrev pub NoEnd : Text → Type 0
NoEnd s = strip_suffix space s ≡ none

protect_end-ne-nil : (c : ℕ) (s : Text) → protect_end (c ∷ s) ≢ []
unfolding protect_end strip_suffix
protect_end-ne-nil c [] = ground arith
protect_end-ne-nil c (d ∷ s) =
    rw (protect_end-cons c (d ∷ s) (cons-ne-nil d s)) (cons-ne-nil c (protect_end (d ∷ s)))

NoEnd-cons : (c : ℕ) (s : Text) → s ≢ [] → NoEnd s → NoEnd (c ∷ s)
unfolding strip_suffix
NoEnd-cons c [] n h = absurd (n refl)
NoEnd-cons c (d ∷ s) n h = rw h refl

protect_end-NoEnd : (s : Text) → NoEnd (protect_end s)
protect_end-NoEnd [] = unfold protect_end strip_suffix in refl
protect_end-NoEnd (c ∷ []) = unfold protect_end strip_suffix in ground arith
protect_end-NoEnd (c ∷ d ∷ s) =
    rw (protect_end-cons c (d ∷ s) (cons-ne-nil d s))
      (NoEnd-cons c (protect_end (d ∷ s)) (protect_end-ne-nil d s) (protect_end-NoEnd (d ∷ s)))

escape_text_total :
    (text : Text) → escape_text text false 8 ≡ some (write_all (tokens (expanded 8 0 text)))
unfolding escape_text
escape_text_total text =
    rw (tabs_to_spaces-eq-expanded text 8 (omega arith)) (ap some (protect_spaces-write_all _))

-- The cell of a plaintext is rendered without a panic: a reader of the character references gets the
-- plaintext back, with its tabs expanded; no character opens or closes a tag or ends a quoted
-- attribute; no ordinary space is first, is last, stands behind a space or a newline, or before a
-- newline or a carriage return.
pub plaintext_html_lem :
    (m : CrackMatch)
    → (out : Text) × (plaintext_html m ≡ some out)
      × (decode out ≡ expanded 8 0 m.plaintext)
      × All IsHarmless out
      × IsShown out
      × NoEnd out
unfolding plaintext_html
plaintext_html_lem m =
    let s = expanded 8 0 m.plaintext in
    let ts = harden_last (tokens s) in
    let e = protect_end-write_all (tokens s) in
    (
      write_all ts,
      rw (escape_text_total m.plaintext, e) refl,
      rw (decode-write_all, plain-harden_last) (plain-tokens s),
      write_all-IsHarmless ts,
      write_all-IsShown ts
          (IsSpaced-Hardens (tokens s) ts (tokens-IsSpaced s) (Hardens-harden_last (tokens s))),
      rw (← e) (protect_end-NoEnd (write_all (tokens s))),
    )
