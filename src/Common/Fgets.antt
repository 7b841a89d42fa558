-- ===== src/Common/Fgets.antt =====
-- The standard loop over `fgets` with a buffer of a fixed size, and texts written line by line.
use epistemic_framework.Common.{
  ℕ, ◌+◌, ◌-◌, ◌*◌, ◌≤◌, Bool, true, false, not, ◌&&◌, ◌||◌, List, [], ◌∷◌, ◌++◌, append-nil,
  append_assoc, ◌==◌, if◌then◌else◌, length, length-append, All, Bytes, codes, span_until,
  span_until_none, ◌≡◌, refl, sym, ◌∙◌, ap, arith,
}

abbrev put_first : ℕ → List Bytes → List Bytes
put_first c [] = (c ∷ []) ∷ []
put_first c (line ∷ rest) = (c ∷ line) ∷ rest

-- What the calls of `fgets` give: a call ends behind a newline, when the buffer is full, or at the end
-- of the file. `size - 1` bytes fit in front of the NUL; the call that is under way still has
-- room for `room + 1` of them.
unfoldable pub chunks : ℕ → ℕ → Bytes → List Bytes
chunks size room [] = []
chunks size room (c ∷ s) =
    let ends = c == 10 || room == 0 in
    let rest = chunks size (if ends then size - 2 else room - 1) s in
    if ends then (c ∷ []) ∷ rest else put_first c rest

abbrev is_nul : ℕ → Bool
is_nul c = c == 0

-- The string in the buffer ends at its first NUL.
unfoldable pub c_string : Bytes → Bytes
c_string chunk = (span_until is_nul chunk).0

unfoldable pub c_strings : List Bytes → List Bytes
c_strings [] = []
c_strings (chunk ∷ rest) = c_string chunk ∷ c_strings rest

unfoldable pub fgets_lines : ℕ → Bytes → List Bytes
fgets_lines size file = c_strings (chunks size (size - 2) file)

four_calls :
    fgets_lines 6 (codes "ab\nabcdefgh\nx")
    ≡ codes "ab\n" ∷ codes "abcde" ∷ codes "fgh\n" ∷ codes "x" ∷ []
unfolding fgets_lines c_strings chunks c_string span_until
four_calls = refl

-- The text of a list of lines.
unfoldable pub unlines : List Bytes → Bytes
unlines [] = []
unlines (line ∷ rest) = line ++ (10 ∷ unlines rest)

-- No byte that ends a string or a line.
abbrev pub IsOneLine : Bytes → Type 0
IsOneLine = All (λ c. (c == 0 || c == 10 || c == 13) ≡ false)

abbrev pub one_line : Bytes → Bool
one_line [] = true
one_line (c ∷ s) = not (c == 0 || c == 10 || c == 13) && one_line s

pub one_line-IsOneLine : (s : Bytes) → one_line s ≡ true → IsOneLine s
one_line-IsOneLine [] h = tt
one_line-IsOneLine (c ∷ s) h = (ground arith, one_line-IsOneLine s (ground arith))

-- A line that is read back whole: it fits the buffer with its newline.
abbrev pub IsLine : ℕ → Bytes → Type 0
IsLine size line = IsOneLine line × (length line + 2 ≤ size)

chunks_line :
    (size room : ℕ) (line rest : Bytes)
    → IsOneLine line
    → length line ≤ room
    → chunks size room (line ++ (10 ∷ rest)) ≡ (line ++ (10 ∷ [])) ∷ chunks size (size - 2) rest
unfolding chunks
chunks_line size room [] rest h fits = refl
chunks_line size room (c ∷ line) rest (hc, h) fits =
    let goes_on : (c == 10 || room == 0) ≡ false = ground arith in
    rw (goes_on, chunks_line size (room - 1) line rest h (omega arith))

plain_nul : (line : Bytes) → IsOneLine line → All (λ c. is_nul c ≡ false) (line ++ (10 ∷ []))
plain_nul [] h = (refl, tt)
plain_nul (c ∷ line) (hc, h) = (ground arith, plain_nul line h)

c_string-newline :
    (line : Bytes) → IsOneLine line → c_string (line ++ (10 ∷ [])) ≡ line ++ (10 ∷ [])
c_string-newline line h =
    let whole : span_until is_nul (line ++ (10 ∷ [])) ≡ (line ++ (10 ∷ []), []) =
      span_until_none is_nul (line ++ (10 ∷ [])) (plain_nul line h) in
    unfold c_string in ap (λ (r : Bytes × Bytes). r.0) whole

fgets_lines_nil : (size : ℕ) → fgets_lines size [] ≡ []
unfolding fgets_lines c_strings chunks
fgets_lines_nil size = refl

fgets_lines_cons :
    (size : ℕ) (line rest : Bytes)
    → IsLine size line
    → fgets_lines size (line ++ (10 ∷ rest)) ≡ (line ++ (10 ∷ [])) ∷ fgets_lines size rest
fgets_lines_cons size line rest (plain, fits) =
    let first = chunks_line size (size - 2) line rest plain (omega arith) in
    let string = c_string-newline line plain in
    unfold fgets_lines in rw first (unfold c_strings in rw string)

-- Every line with its newline.
abbrev pub with_newlines : List Bytes → List Bytes
with_newlines [] = []
with_newlines (line ∷ lines) = (line ++ (10 ∷ [])) ∷ with_newlines lines

-- The lines of a text that was written line by line are read back, whatever stands behind it.
pub fgets_lines-append :
    (size : ℕ) (lines : List Bytes) (rest : Bytes)
    → All (IsLine size) lines
    → fgets_lines size (unlines lines ++ rest) ≡ with_newlines lines ++ fgets_lines size rest
unfolding unlines
fgets_lines-append size [] rest h = refl
fgets_lines-append size (line ∷ lines) rest (hl, h) =
    ap (fgets_lines size) (append_assoc line (10 ∷ unlines lines) rest)
    ∙ fgets_lines_cons size line (unlines lines ++ rest) hl
    ∙ ap (λ r. (line ++ (10 ∷ [])) ∷ r) (fgets_lines-append size lines rest h)

pub fgets_lines-unlines :
    (size : ℕ) (lines : List Bytes)
    → All (IsLine size) lines
    → fgets_lines size (unlines lines) ≡ with_newlines lines
fgets_lines-unlines size lines h =
    ap (fgets_lines size) (sym (append-nil (unlines lines)))
    ∙ fgets_lines-append size lines [] h
    ∙ ap (λ r. with_newlines lines ++ r) (fgets_lines_nil size)
    ∙ append-nil (with_newlines lines)

pub unlines-append : (a b : List Bytes) → unlines (a ++ b) ≡ unlines a ++ unlines b
unfolding unlines
unlines-append [] b = refl
unlines-append (line ∷ a) b =
    ap (λ r. line ++ (10 ∷ r)) (unlines-append a b)
    ∙ sym (append_assoc line (10 ∷ unlines a) (unlines b))

pub length-unlines :
    (size : ℕ) (lines : List Bytes)
    → All (IsLine size) lines
    → length (unlines lines) ≤ length lines * size
unfolding unlines
length-unlines size [] h = omega arith
length-unlines size (line ∷ lines) ((_, fits), h) =
    omega (arith, length-append line (10 ∷ unlines lines), length-unlines size lines h)
