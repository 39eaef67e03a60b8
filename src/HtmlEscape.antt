-- ===== src/HtmlEscape.antt =====
-- src/libs/html_escape.rs: escaping a text so that HTML shows it as a text editor would.
-- A text is the list of its characters; `push` and `push_str` on the result are `∷` and `++`.
pub mod Tokens
pub mod TabStops
mod Tests
use crackstation_rust.Base.{
  ℕ, zero, suc, ◌+◌, ◌%◌, Bool, true, false, ◌&&◌, ◌||◌, Option, none, some, List, [], ◌∷◌, ◌++◌,
  Text, codes, ◌==◌, if◌then◌else◌, ◌>>=◌,
}

abbrev pub space : ℕ
space = 32

abbrev pub tab : ℕ
tab = 9

abbrev pub newline : ℕ
newline = 10

abbrev pub carriage_return : ℕ
carriage_return = 13

abbrev pub nbsp : Text
nbsp = codes "&nbsp;"

-- `while cursor % tab_width != 0 { result.push(' '); cursor += 1 }`, on fuel: the spaces pushed
-- and the cursor behind them. `none` means that the fuel ran out.
fill : ℕ → ℕ → ℕ → Option (Text × ℕ)
fill tab_width zero cursor = none
fill tab_width (suc fuel) cursor =
    let rest = (do (s, c) ← fill tab_width fuel (cursor + 1); some (space ∷ s, c)) in
    if cursor % tab_width == 0 then some ([], cursor) else rest

-- The branch for a tab. A `tab_width` of 0 panics at the `%`.
expand : ℕ → ℕ → Option (Text × ℕ)
expand tab_width cursor =
    if tab_width == 0
    then none
    else (do (s, c) ← fill tab_width tab_width (cursor + 1); some (space ∷ s, c))

-- The cursor behind a character that is no tab.
advance : ℕ → ℕ → ℕ
advance ch cursor = if ch == newline || ch == carriage_return then 0 else cursor + 1

-- The loop of `tabs_to_spaces`; `none` is the panic of `% 0`.
tabs_from : ℕ → ℕ → Text → Option Text
tabs_from tab_width cursor [] = some []
tabs_from tab_width cursor (ch ∷ text) = elim (ch == tab) [
  | true ↦ do (s, c) ← expand tab_width cursor; rest ← tabs_from tab_width c text; some (s ++ rest)
  | false ↦ do rest ← tabs_from tab_width (advance ch cursor) text; some (ch ∷ rest)
]

pub tabs_to_spaces : Text → ℕ → Option Text
unfolding tabs_from expand fill advance
tabs_to_spaces text tab_width = tabs_from tab_width 0 text

-- The `match` of `html_special_chars`.
unfoldable pub entity : ℕ → Text
entity c =
    if c == b'&'
    then codes "&amp;"
    else if c == b'<'
    then codes "&lt;"
    else if c == b'>'
    then codes "&gt;"
    else if c == b'"'
    then codes "&quot;"
    else if c == 39
    then codes "&#039;"
    else c ∷ []

pub html_special_chars : Text → Text
html_special_chars [] = []
html_special_chars (c ∷ text) = entity c ++ html_special_chars text

-- `text.replace(p, to)` for a pattern `p` of the two characters `a` and `b`: left to right, and
-- what a match consumed is not looked at again.
pub replace_pair : ℕ → ℕ → Text → Text → Text
replace_pair a b to [] = []
replace_pair a b to (x ∷ []) = x ∷ []
replace_pair a b to (x ∷ y ∷ text) = elim (x == a && y == b) [
  | true ↦ to ++ replace_pair a b to text
  | false ↦ x ∷ replace_pair a b to (y ∷ text)
]

-- `text.replace(a, to)` for a character `a`.
pub replace_char : ℕ → Text → Text → Text
replace_char a to [] = []
replace_char a to (x ∷ text) = (if x == a then to else x ∷ []) ++ replace_char a to text

-- The loop of `replace_leading_spaces`, with its `at_line_start`.
pub leading_from : Bool → Text → Text
leading_from at_line_start [] = []
leading_from at_line_start (ch ∷ text) =
    (if at_line_start && ch == space then nbsp else ch ∷ []) ++ leading_from (ch == newline) text

pub replace_leading_spaces : Text → Text
unfolding leading_from
replace_leading_spaces = leading_from true

-- Step 6 of `escape_text`.
pub break_lines : Text → Text
unfolding replace_pair replace_char
break_lines esc = replace_char newline (codes "<br />\n") (
    replace_char carriage_return (codes "\n")
      (replace_pair carriage_return newline (codes "\n") esc))

-- Steps 3 to 5 of `escape_text`.
pub protect_spaces : Text → Text
unfolding replace_pair replace_leading_spaces
protect_spaces esc = replace_pair space newline (codes "&nbsp;\n") (
    replace_pair space carriage_return (codes "&nbsp;\r")
      (replace_leading_spaces (replace_pair space space (codes " &nbsp;") esc)))

unfoldable pub escape_text : Text → Bool → ℕ → Option Text
unfolding tabs_to_spaces html_special_chars entity protect_spaces break_lines
escape_text text br_tags tab_width = do
  esc ← tabs_to_spaces text tab_width
  let esc = protect_spaces (html_special_chars esc)
  some (if br_tags then break_lines esc else esc)
