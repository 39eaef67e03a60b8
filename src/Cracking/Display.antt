-- ===== src/Cracking/Display.antt =====
-- How src/cracking.rs shows a plaintext and a near miss.
use crackstation_rust.Base.{
  ℕ, suc, false, Option, none, some, List, [], ◌∷◌, ◌++◌, Text, codes, ◌==◌, ascii_lower, take,
  drop, strip_suffix, if◌then◌else◌, ◌>>=◌,
}
use crackstation_rust.HtmlEscape.{space, nbsp, escape_text}
use crackstation_rust.Cracking.Results.{NearMiss, CrackMatch}

abbrev with_nbsp : Text → Option Text → Text
with_nbsp escaped none = escaped
with_nbsp escaped (some head) = head ++ nbsp

-- The `match` of `plaintext_html`.
unfoldable pub protect_end : Text → Text
protect_end escaped = with_nbsp escaped (strip_suffix space escaped)

-- `none` is a panic of `escape_text`, which a tab width of 8 excludes.
unfoldable pub plaintext_html : CrackMatch → Option Text
plaintext_html m = do escaped ← escape_text m.plaintext false 8; some (protect_end escaped)

-- `submitted.chars().zip(actual.chars()).take_while(..).count()`.
unfoldable pub agreeing : Text → Text → ℕ
agreeing [] actual = 0
agreeing (s ∷ submitted) [] = 0
agreeing (s ∷ submitted) (a ∷ actual) =
    if ascii_lower s == ascii_lower a then suc (agreeing submitted actual) else 0

-- `NearMiss::new`. The source slices at bytes: `actual` is hex, and its characters are its bytes.
unfoldable pub near_miss_new : Text → Text → NearMiss
near_miss_new submitted actual =
    let matched_len = agreeing submitted actual in
    record { matched = take matched_len actual; rest = drop matched_len actual }

-- Conversions of the standard library and the crate `hex`.
pub record Codec : Type 0 where
  pub from_utf8 : List ℕ → Option Text
  pub from_utf8_lossy : List ℕ → Text
  pub hex_encode : List ℕ → Text

abbrev shown_as : Codec → List ℕ → Option Text → Text
shown_as codec bytes (some text) = text
shown_as codec bytes none =
    codes "Binary data: "
    ++ codec.hex_encode bytes
    ++ codes " ("
    ++ codec.from_utf8_lossy bytes
    ++ codes ")"

unfoldable pub display_plaintext : Codec → List ℕ → Text
display_plaintext codec bytes = shown_as codec bytes (codec.from_utf8 bytes)
