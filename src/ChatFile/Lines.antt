-- ===== src/ChatFile/Lines.antt =====
-- The lines of the chat file, as its readers take them: without their newlines.
use epistemic_framework.Common.{
  ℕ, Bool, true, false, ◌&&◌, ◌||◌, List, [], ◌∷◌, ◌++◌, map, ◌==◌, if◌then◌else◌, All, Bytes,
  codes, span_until, ◌≡◌, refl, arith,
}
use epistemic_framework.Common.Fgets.{
  chunks, c_string, c_strings, fgets_lines, unlines, IsOneLine, IsLine, with_newlines,
  fgets_lines-unlines,
}

abbrev is_end : ℕ → Bool
is_end c = c == 10 || c == 13

abbrev none_left : Bytes → Bool
none_left [] = true
none_left (_ ∷ _) = false

-- `while (len > 0 && (line[len - 1] == '\n' || line[len - 1] == '\r')) line[--len] = '\0';`
unfoldable pub strip_line : Bytes → Bytes
strip_line [] = []
strip_line (c ∷ s) = let rest = strip_line s in if none_left rest && is_end c then [] else c ∷ rest

unfoldable pub read_lines : ℕ → Bytes → List Bytes
read_lines size file = map strip_line (fgets_lines size file)

three_lines :
    read_lines 6 (codes "ab\n\nabcdefgh\nx")
    ≡ codes "ab" ∷ [] ∷ codes "abcde" ∷ codes "fgh" ∷ codes "x" ∷ []
unfolding read_lines fgets_lines c_strings chunks c_string strip_line span_until
three_lines = refl

strip_line-newline : (line : Bytes) → IsOneLine line → strip_line (line ++ (10 ∷ [])) ≡ line
unfolding strip_line
strip_line-newline [] h = refl
strip_line-newline (c ∷ line) (hc, h) =
    let stays : is_end c ≡ false = ground arith in rw (strip_line-newline line h) (ground arith)

strip-with_newlines :
    (size : ℕ) (lines : List Bytes)
    → All (IsLine size) lines
    → map strip_line (with_newlines lines) ≡ lines
strip-with_newlines size [] h = refl
strip-with_newlines size (line ∷ lines) ((plain, _), h) =
    rw (strip_line-newline line plain, strip-with_newlines size lines h)

-- The lines of a text that was written line by line are read back.
pub read_lines-unlines :
    (size : ℕ) (lines : List Bytes)
    → All (IsLine size) lines
    → read_lines size (unlines lines) ≡ lines
read_lines-unlines size lines h =
    let stripped = strip-with_newlines size lines h in
    let read = fgets_lines-unlines size lines h in unfold read_lines in rw read stripped
