-- ===== src/HtmlEscape/Tokens/Decode.antt =====
-- Reading an escaped text (libs/html_escape.rs) back, as a browser reads character references.
use crackstation_rust.Base.{
  ℕ, zero, suc, ◌<◌, Bool, false, List, [], ◌∷◌, ◌++◌, map, Text, codes, starts_with, ◌==◌,
  if◌then◌else◌, ◌≡◌, ◌≢◌, refl, ap, arith, some, All, All-append, map-append,
}
use crackstation_rust.HtmlEscape.{space, newline, carriage_return, entity, escape_text}
use crackstation_rust.HtmlEscape.Tokens.{
  Token, chr, hard, plain, write, write_all, is_chr, swap, lead,
}
use crackstation_rust.HtmlEscape.TabStops.{expanded, tabs_to_spaces-eq-expanded}
use crackstation_rust.HtmlEscape.Tokens.Pipeline.{
  tokens, escape_text-eq-some, protect_spaces-write_all,
}

-- The character for a reference whose `&` has been read, and the length of the rest of it. A
-- non-breaking space is read as the space that it shows.
pub reference : Text → ℕ × ℕ
reference s =
    if starts_with (codes "amp;") s
    then (b'&', 4)
    else if starts_with (codes "lt;") s
    then (b'<', 3)
    else if starts_with (codes "gt;") s
    then (b'>', 3)
    else if starts_with (codes "quot;") s
    then (b'"', 5)
    else if starts_with (codes "#039;") s
    then (39, 5)
    else if starts_with (codes "nbsp;") s
    then (space, 5)
    else (b'&', 0)

decode_from : ℕ → Text → Text
decode_from skip [] = []
decode_from (suc skip) (c ∷ s) = decode_from skip s
decode_from zero (c ∷ s) =
    if c == b'&' then (reference s).0 ∷ decode_from (reference s).1 s else c ∷ decode_from 0 s

-- The characters that an HTML text shows.
pub decode : Text → Text
unfolding decode_from reference
decode = decode_from 0

decode-write : (t : Token) (s : Text) → decode_from 0 (write t ++ s) ≡ plain t ∷ decode_from 0 s
unfolding write entity decode_from plain reference
decode-write (chr c) s = ground arith
decode-write hard s = refl

pub decode-write_all : (ts : List Token) → decode (write_all ts) ≡ map plain ts
unfolding write_all decode
decode-write_all [] = refl
decode-write_all (t ∷ ts) =
    rw (decode-write t (write_all ts)) (ap (λ s. plain t ∷ s) (decode-write_all ts))

module _ (b : ℕ) (new : List Token) (same : map plain new ≡ space ∷ b ∷ []) where
  plain-swap : (ts : List Token) → map plain (swap b new ts) ≡ map plain ts
  unfolding swap plain
  plain-swap [] = refl
  plain-swap (t ∷ []) = refl
  plain-swap (t ∷ u ∷ ts) =
      ground (arith, plain-swap ts, plain-swap (u ∷ ts), map-append plain new (swap b new ts), same)

plain-lead : (b : Bool) (ts : List Token) → map plain (lead b ts) ≡ map plain ts
unfolding lead plain
plain-lead b [] = refl
plain-lead b (t ∷ ts) = ground (arith, plain-lead (is_chr newline t) ts)

plain-chr : (s : Text) → map plain (map chr s) ≡ s
unfolding plain
plain-chr [] = refl
plain-chr (c ∷ s) = rw (plain-chr s)

pub plain-tokens : (s : Text) → map plain (tokens s) ≡ s
unfolding tokens plain
plain-tokens s =
    rw
      (
        plain-swap newline _ refl,
        plain-swap carriage_return _ refl,
        plain-lead,
        plain-swap space _ refl,
      )
      (plain-chr s)

-- With a positive tab width and without `br_tags` a text is escaped without a panic, and what a browser reads from the
-- result, its character references read, is the tab-expanded text: escaping loses, adds and
-- reorders no character.
pub decode-escape_text :
    (text : Text) (tab_width : ℕ)
    → 0 < tab_width
    → (out : Text) × (escape_text text false tab_width ≡ some out)
      × (decode out ≡ expanded tab_width 0 text)
unfolding escape_text
decode-escape_text text tab_width h = (
  write_all (tokens (expanded tab_width 0 text)),
  rw (tabs_to_spaces-eq-expanded text tab_width h) (ap some (protect_spaces-write_all _)),
  rw (decode-write_all) (plain-tokens _),
)

abbrev pub IsHarmless : ℕ → Type 0
IsHarmless c = (c ≢ b'<') × (c ≢ b'>') × (c ≢ b'"') × (c ≢ 39)

write-IsHarmless : (t : Token) → All IsHarmless (write t)
unfolding write entity
write-IsHarmless (chr c) = ground arith
write-IsHarmless hard = ground arith

pub write_all-IsHarmless : (ts : List Token) → All IsHarmless (write_all ts)
unfolding write_all
write_all-IsHarmless [] = tt
write_all-IsHarmless (t ∷ ts) =
    All-append IsHarmless (write t) (write_all ts) (write-IsHarmless t) (write_all-IsHarmless ts)

-- No character of a text escaped without `br_tags` opens or closes a tag or ends a quoted
-- attribute, whatever the input.
pub escape_text-IsHarmless :
    (text : Text) (tab_width : ℕ) {out : Text}
    → escape_text text false tab_width ≡ some out
    → All IsHarmless out
escape_text-IsHarmless text tab_width h =
    let (s, _, e) = escape_text-eq-some text tab_width h in rw e (write_all-IsHarmless (tokens s))
