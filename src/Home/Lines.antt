-- ===== src/Home/Lines.antt =====
-- How the form's text is cut into hashes (pages/home.rs).
use crackstation_rust.Base.{
  ℕ, false, not, List, [], ◌∷◌, ◌++◌, map, map-append, append-nil, Text, codes, Lacks, split,
  split_at_sep, split_other, split-Lacks, starts_with, keep, is_empty, ◌≡◌, ◌≢◌, refl, sym, ap, ◌∙◌,
  arith,
}
use crackstation_rust.Home.{replace_crlf, replace_cr, clean, parse_hashes}

-- A line: a text without the characters that end one.
abbrev pub IsLine : Text → Type 0
IsLine l = Lacks 10 l × Lacks 13 l

-- The lines of a text, each of which ends by LF, CRLF or CR, as the browser likes.
pub data HasLines : Text → List Text → Type 0 where
  last : (l : Text) → IsLine l → HasLines l (l ∷ [])
  lf :
      (l : Text) {s : Text} {ls : List Text}
      → IsLine l
      → HasLines s ls
      → HasLines (l ++ 10 ∷ s) (l ∷ ls)
  crlf :
      (l : Text) {s : Text} {ls : List Text}
      → IsLine l
      → HasLines s ls
      → HasLines (l ++ 13 ∷ 10 ∷ s) (l ∷ ls)
  cr :
      (l : Text) {s : Text} {ls : List Text}
      → IsLine l
      → starts_with (codes "\n") s ≡ false
      → HasLines s ls
      → HasLines (l ++ 13 ∷ s) (l ∷ ls)

abbrev normalized : Text → Text
normalized s = replace_cr (replace_crlf s)

replace_crlf-other : (c : ℕ) (s : Text) → c ≢ 13 → replace_crlf (c ∷ s) ≡ c ∷ replace_crlf s
unfolding replace_crlf
replace_crlf-other c [] h = refl
replace_crlf-other c (d ∷ s) h = ground arith

replace_crlf-line : (l s : Text) → Lacks 13 l → replace_crlf (l ++ s) ≡ l ++ replace_crlf s
replace_crlf-line [] s h = refl
replace_crlf-line (c ∷ l) s (h, hs) =
    replace_crlf-other c (l ++ s) h ∙ ap (λ t. c ∷ t) (replace_crlf-line l s hs)

replace_cr-line : (l : Text) → Lacks 13 l → replace_cr l ≡ l
unfolding replace_cr
replace_cr-line [] h = refl
replace_cr-line (c ∷ l) (h, hs) = ground (arith, replace_cr-line l hs)

normalized-line : (l s : Text) → IsLine l → normalized (l ++ s) ≡ l ++ normalized s
unfolding replace_cr
normalized-line l s (_, h) =
    rw (replace_crlf-line l s h)
      (rw (map-append _ l (replace_crlf s)) (rw (replace_cr-line l h) refl))

replace_crlf-cr :
    (s : Text) → starts_with (codes "\n") s ≡ false → replace_crlf (13 ∷ s) ≡ 13 ∷ replace_crlf s
unfolding replace_crlf
replace_crlf-cr [] h = refl
replace_crlf-cr (d ∷ s) h = ground arith

split-line : (l s : Text) → Lacks 10 l → split 10 (l ++ 10 ∷ s) ≡ l ∷ split 10 s
split-line [] s h = split_at_sep 10 s
split-line (c ∷ l) s (h, hs) = split_other 10 c (l ++ 10 ∷ s) l (split 10 s) h (split-line l s hs)

normalized-only : (l : Text) → IsLine l → normalized l ≡ l
unfolding replace_crlf replace_cr
normalized-only l h = ap normalized (sym (append-nil l)) ∙ normalized-line l [] h ∙ append-nil l

after_lf : (s : Text) → normalized (10 ∷ s) ≡ 10 ∷ normalized s
unfolding replace_cr
after_lf s = rw (replace_crlf-other 10 s (λ e. omega (arith, e))) refl

after_crlf : (s : Text) → normalized (13 ∷ 10 ∷ s) ≡ 10 ∷ normalized s
unfolding replace_crlf replace_cr
after_crlf s = refl

after_cr : (s : Text) → starts_with (codes "\n") s ≡ false → normalized (13 ∷ s) ≡ 10 ∷ normalized s
unfolding replace_cr
after_cr s h = rw (replace_crlf-cr s h) refl

split-ended :
    (l t s : Text) {ls : List Text}
    → IsLine l
    → normalized t ≡ 10 ∷ normalized s
    → split 10 (normalized s) ≡ ls
    → split 10 (normalized (l ++ t)) ≡ l ∷ ls
split-ended l t s h ended rest =
    rw (normalized-line l t h, ended) (split-line l (normalized s) (h.0) ∙ ap (λ p. l ∷ p) rest)

split-normalized : {s : Text} {ls : List Text} → HasLines s ls → split 10 (normalized s) ≡ ls
split-normalized (last l h) = rw (normalized-only l h) (split-Lacks 10 l (h.0))
split-normalized (lf l {s} h hs) = split-ended l _ s h (after_lf s) (split-normalized hs)
split-normalized (crlf l {s} h hs) = split-ended l _ s h (after_crlf s) (split-normalized hs)
split-normalized (cr l {s} h n hs) = split-ended l _ s h (after_cr s n) (split-normalized hs)

-- The hashes of a text are its lines, cleaned, but for those that are then empty; whether a line
-- ends by LF, CRLF or CR makes no difference.
pub parse_hashes_lem :
    (s : Text) (ls : List Text)
    → HasLines s ls
    → parse_hashes s ≡ keep (λ h. not (is_empty h)) (map clean ls)
unfolding parse_hashes
parse_hashes_lem s ls h = rw (split-normalized h) refl
