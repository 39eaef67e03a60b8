-- ===== src/HtmlEscape/Tests.antt =====
-- Runs of libs/html_escape.rs.
use crackstation_rust.Base.{Text, codes, some, ◌≡◌, refl, false, true, All, arith}
use crackstation_rust.HtmlEscape.{escape_text}
use crackstation_rust.HtmlEscape.TabStops.{expanded}
use crackstation_rust.HtmlEscape.Tokens.Decode.{
  decode, decode-escape_text, IsHarmless, escape_text-IsHarmless,
}
use crackstation_rust.HtmlEscape.Tokens.Shown.{IsShown, escape_text-IsShown}

abbrev tabbed : Text
tabbed = codes "a   b\t<"

escaped_tabbed : escape_text tabbed false 8 ≡ some (codes "a &nbsp; b &nbsp; &lt;")
unfolding escape_text
escaped_tabbed = refl

escaped_lines :
    escape_text (codes " a\r\n b \r") true 8 ≡ some (codes "&nbsp;a<br />\n&nbsp;b&nbsp;<br />\n")
unfolding escape_text
escaped_lines = refl

decode-escape_text_example :
    (out : Text) × (escape_text tabbed false 8 ≡ some out) × (decode out ≡ expanded 8 0 tabbed)
decode-escape_text_example = decode-escape_text tabbed 8 (omega arith)

escape_text-IsHarmless_example : All IsHarmless (codes "a &nbsp; b &nbsp; &lt;")
escape_text-IsHarmless_example = escape_text-IsHarmless tabbed 8 escaped_tabbed

escape_text-IsShown_example : IsShown (codes "a &nbsp; b &nbsp; &lt;")
escape_text-IsShown_example = escape_text-IsShown tabbed 8 escaped_tabbed
