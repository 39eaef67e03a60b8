-- ===== src/HtmlEscape/Tokens/Shown.antt =====
-- Where an ordinary space may stand in an escaped text (libs/html_escape.rs).
use crackstation_rust.Base.{
  ℕ, true, false, ◌&&◌, List, [], ◌∷◌, ◌++◌, Text, ◌==◌, Lacks, ◌≡◌, ◌≢◌, inl, inr, refl, arith,
  some, Bool-cases,
}
use crackstation_rust.HtmlEscape.{space, newline, carriage_return, entity, escape_text}
use crackstation_rust.HtmlEscape.Tokens.{Token, chr, hard, write, write_all, is_chr}
use crackstation_rust.HtmlEscape.Tokens.Replace.{write-first, first-write, write_of_is_chr}
use crackstation_rust.HtmlEscape.Tokens.Spaces.{Apart, NoLead, IsSpaced, tokens-IsSpaced}
use crackstation_rust.HtmlEscape.Tokens.Pipeline.{tokens, escape_text-eq-some}

-- No `b` stands directly behind an `a`.
abbrev pub NoPair : ℕ → ℕ → Text → Type 0
NoPair a b [] = Unit
NoPair a b (x ∷ []) = Unit
NoPair a b (x ∷ y ∷ s) = ((x == a && y == b) ≡ false) × NoPair a b (y ∷ s)

abbrev NoStart : ℕ → Text → Type 0
NoStart a [] = Unit
NoStart a (c ∷ s) = c ≢ a

-- No ordinary space stands behind another, behind a newline or first, or before the newline or the
-- carriage return that ends a line.
pub record IsShown (out : Text) : Type 0 where
  pub single : NoPair space space out
  pub not_leading : NoPair newline space out × NoStart space out
  pub not_trailing : NoPair space newline out × NoPair space carriage_return out

-- A character that no token writes but the one that stands for it.
module _ (a : ℕ) (a_plain : entity a ≡ a ∷ []) (a_mark : a ≢ b'&')
    (own : (t : Token) → is_chr a t ≡ false → Lacks a (write t)) (b : ℕ) (b_mark : b ≢ b'&') where
  NoPair-append : (p s : Text) → Lacks a p → NoPair a b s → NoPair a b (p ++ s)
  NoPair-append [] s h k = k
  NoPair-append (x ∷ []) [] h k = tt
  NoPair-append (x ∷ []) (y ∷ s) h k = (ground arith, k)
  NoPair-append (x ∷ y ∷ p) s h k = (ground arith, NoPair-append (y ∷ p) s h.1 k)

  NoPair-cons : (s : Text) → NoStart b s → NoPair a b s → NoPair a b (a ∷ s)
  NoPair-cons [] h k = tt
  NoPair-cons (y ∷ s) h k = (ground arith, k)

  NoStart-write : (u : Token) (s : Text) → is_chr b u ≡ false → NoStart b (write u ++ s)
  NoStart-write u s h = rw (write-first u) (first-write b u b_mark h)

  NoStart-write_all :
      (t : Token) (ts : List Token)
      → is_chr a t ≡ true
      → Apart a b (t ∷ ts)
      → NoStart b (write_all ts)
  unfolding write_all
  NoStart-write_all t [] e h = tt
  NoStart-write_all t (u ∷ ts) e h = NoStart-write u (write_all ts) (ground arith)

  Apart-tail : (t : Token) (ts : List Token) → Apart a b (t ∷ ts) → Apart a b ts
  Apart-tail t [] h = tt
  Apart-tail t (u ∷ ts) h = h.1

  NoPair-write_all : (ts : List Token) → Apart a b ts → NoPair a b (write_all ts)
  unfolding write_all
  NoPair-write_all [] h = tt
  NoPair-write_all (t ∷ ts) h =
      let ih = NoPair-write_all ts (Apart-tail t ts h) in
      elim (Bool-cases (is_chr a t)) [
        | inl at_a ↦
            rw (write_of_is_chr a t a_plain at_a)
              (NoPair-cons (write_all ts) (NoStart-write_all t ts at_a h) ih)
        | inr other ↦ NoPair-append (write t) (write_all ts) (own t other) ih
      ]

own_space : (t : Token) → is_chr space t ≡ false → Lacks space (write t)
unfolding write entity
own_space (chr c) h = ground arith
own_space hard h = ground arith

own_newline : (t : Token) → is_chr newline t ≡ false → Lacks newline (write t)
unfolding write entity
own_newline (chr c) h = ground arith
own_newline hard h = ground arith

NoLead-write_all : (ts : List Token) → NoLead ts → NoStart space (write_all ts)
unfolding write_all
NoLead-write_all [] h = tt
NoLead-write_all (t ∷ ts) h = rw (write-first t) (first-write space t (omega arith) h)

pub write_all-IsShown : (ts : List Token) → IsSpaced ts → IsShown (write_all ts)
write_all-IsShown ts (pairs, lines, nl, cr, start) =
    let after_space = NoPair-write_all space (unfold entity in refl) (omega arith) own_space in
    let after_newline =
      NoPair-write_all newline (unfold entity in refl) (omega arith) own_newline in
    record {
      single = after_space space (omega arith) ts pairs;
      not_leading = (after_newline space (omega arith) ts lines, NoLead-write_all ts start);
      not_trailing = (
        after_space newline (omega arith) ts nl,
        after_space carriage_return (omega arith) ts cr,
      );
    }

-- In a text escaped without `br_tags`, no ordinary space is the first character, or stands directly
-- behind a space or a newline, or directly before a newline or a carriage return. One at the very end
-- may be left, and one behind a carriage return.
pub escape_text-IsShown :
    (text : Text) (tab_width : ℕ) {out : Text}
    → escape_text text false tab_width ≡ some out
    → IsShown out
escape_text-IsShown text tab_width h =
    let (s, _, e) = escape_text-eq-some text tab_width h in
    rw e (write_all-IsShown (tokens s) (tokens-IsSpaced s))
