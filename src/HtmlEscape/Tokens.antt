-- ===== src/HtmlEscape/Tokens.antt =====
-- What the output of `escape_text` (libs/html_escape.rs) is made of: characters written as
-- `html_special_chars` writes them, and hard spaces. Each text step of the escaper is a step on
-- such tokens, as the modules below show.
pub mod Replace
pub mod Leading
pub mod Pipeline
pub mod Decode
pub mod Spaces
pub mod Shown
use crackstation_rust.Base.{
  ℕ, Bool, true, false, ◌&&◌, List, [], ◌∷◌, ◌++◌, Text, ◌==◌, if◌then◌else◌,
}
use crackstation_rust.HtmlEscape.{space, newline, nbsp, entity}

pub data Token : Type 0 where
  chr : ℕ → Token
  hard : Token

-- The character that a reader sees.
unfoldable pub plain : Token → ℕ
plain (chr c) = c
plain hard = space

unfoldable pub write : Token → Text
write (chr c) = entity c
write hard = nbsp

unfoldable pub write_all : List Token → Text
write_all [] = []
write_all (t ∷ ts) = write t ++ write_all ts

abbrev pub is_chr : ℕ → Token → Bool
is_chr b (chr c) = c == b
is_chr b hard = false

-- A space before a `b` becomes the tokens `new`, from left to right.
module _ (b : ℕ) (new : List Token) where
  pub swap : List Token → List Token
  swap [] = []
  swap (t ∷ []) = t ∷ []
  swap (t ∷ u ∷ ts) = elim (is_chr space t && is_chr b u) [
    | true ↦ new ++ swap ts
    | false ↦ t ∷ swap (u ∷ ts)
  ]

-- A space at the start of a line becomes a hard one.
pub lead : Bool → List Token → List Token
lead at_line_start [] = []
lead at_line_start (t ∷ ts) =
    (if at_line_start && is_chr space t then hard else t) ∷ lead (is_chr newline t) ts
