-- ===== src/ChatFile/Cursors/Lines.antt =====
-- The lines of the cursor file, as its two loops read them.
use epistemic_framework.Common.{
  ℕ, zero, suc, ◌≤◌, ◌<◌, true, false, ◌||◌, List, [], ◌∷◌, ◌++◌, append_assoc, leb, ◌==◌,
  if◌then◌else◌, length, length-append, All, All-append, Bytes, str_eq, span_until, span_until_at,
  none, some, ◌≡◌, refl, ◌∙◌, ap, arith,
}
use epistemic_framework.Common.Int.{ℤ, pos, negsuc}
use epistemic_framework.Common.Decimal.{print_ℕ, print_ℤ, strtoll}
use epistemic_framework.Common.Decimal.RoundTrip.{strtoll-print_ℕ, strtoll-print_ℤ}
use epistemic_framework.Common.Fgets.{
  fgets_lines, IsOneLine, IsLine, one_line-IsOneLine, with_newlines, fgets_lines-unlines,
}
use epistemic_framework.ChatFile.Participants.{max_handle_len, max_participants, safe_parse_int}
use epistemic_framework.ChatFile.Participants.RoundTrip.{IsInt, length-print_ℤ}
use epistemic_framework.ChatFile.Render.Lines.{print_ℤ-IsPlain}
use epistemic_framework.ChatFile.Cursors.{
  Cursor, is_equals, cursor_line, minus_one, find_cursor, chat_cursor_read, load_cursors,
  cursor_comment, cursor_text, cursor_file, old_lines,
}

-- A handle that a line can hold: 1 to 63 bytes on one line without `=`, and no `#` in front.
abbrev pub IsKey : Bytes → Type 0
IsKey [] = ⊥
IsKey (c ∷ s) =
    ((c == b'#') ≡ false)
    × All (λ b. is_equals b ≡ false) (c ∷ s)
    × IsOneLine (c ∷ s)
    × (length (c ∷ s) < max_handle_len)

abbrev pub IsCursor : Cursor → Type 0
IsCursor c = IsKey c.handle × IsInt c.index

pub key_short : (s : Bytes) → IsKey s → IsOneLine s × (length s < max_handle_len)
key_short [] h = absurd h
key_short (c ∷ s) (_, _, line, h) = (line, h)

value_parsed : (z : ℤ) → IsInt z → safe_parse_int (print_ℤ z ++ (10 ∷ [])) ≡ some z
value_parsed (pos n) h =
    let read : strtoll (print_ℕ n ++ (10 ∷ []))
        ≡ record { value = pos n; converted = true; rest = 10 ∷ []; out_of_range = false } =
      strtoll-print_ℕ n (10 ∷ []) (ground arith) refl in
    unfold safe_parse_int in unfold print_ℤ in rw (read, h)
value_parsed (negsuc n) h =
    let read : strtoll (print_ℤ (negsuc n) ++ (10 ∷ []))
        ≡ record { value = negsuc n; converted = true; rest = 10 ∷ []; out_of_range = false } =
      strtoll-print_ℤ n (10 ∷ []) (ground arith) refl in
    unfold safe_parse_int in rw (read, h)

cursor_line-key :
    (key value : Bytes) → IsKey key → cursor_line (key ++ (b'=' ∷ value)) ≡ some (key, value)
cursor_line-key [] value h = absurd h
cursor_line-key (c ∷ s) value (hash, keys, line, short) =
    let (plain, _) = line in
    let starts : (c == b'#' || c == 10) ≡ false = ground arith in
    let span : span_until is_equals (c ∷ (s ++ (b'=' ∷ value))) ≡ (c ∷ s, b'=' ∷ value) =
      span_until_at is_equals (c ∷ s) b'=' value keys refl in
    let fits : leb max_handle_len (length (c ∷ s)) ≡ false = ground arith in
    unfold cursor_line in rw (starts, span, fits)

-- A line of the file as the loops see it.
abbrev pub line_of : Cursor → Bytes
line_of c = (c.handle ++ (b'=' ∷ print_ℤ c.index)) ++ (10 ∷ [])

cursor_line-line_of :
    (c : Cursor)
    → IsCursor c
    → cursor_line (line_of c) ≡ some (c.handle, print_ℤ c.index ++ (10 ∷ []))
cursor_line-line_of c (key, _) =
    ap cursor_line (append_assoc c.handle (b'=' ∷ print_ℤ c.index) (10 ∷ []))
    ∙ cursor_line-key c.handle (print_ℤ c.index ++ (10 ∷ [])) key

-- The map that a list of cursors stands for: the first entry counts, -1 is no entry.
abbrev pub index_of : Bytes → List Cursor → ℤ
index_of handle [] = minus_one
index_of handle (c ∷ cs) =
    let later = index_of handle cs in if str_eq c.handle handle then c.index else later

find_cursor-text :
    (handle : Bytes) (cs : List Cursor)
    → All IsCursor cs
    → find_cursor handle (with_newlines (cursor_text cs)) ≡ index_of handle cs
unfolding find_cursor
find_cursor-text handle [] h = refl
find_cursor-text handle (c ∷ cs) (hc, h) =
    let line = cursor_line-line_of c hc in
    let value = value_parsed c.index hc.1 in rw (line, value, find_cursor-text handle cs h)

text-IsLine : (cs : List Cursor) → All IsCursor cs → All (IsLine 256) (cursor_text cs)
text-IsLine [] h = tt
text-IsLine (c ∷ cs) ((key, int), h) =
    let (line, short) = key_short c.handle key in
    (
      (
        All-append _ c.handle (b'=' ∷ print_ℤ c.index) line (refl, print_ℤ-IsPlain c.index),
        omega (
          arith,
          length-append c.handle (b'=' ∷ print_ℤ c.index),
          (length-print_ℤ c.index int).1,
        ),
      ),
      text-IsLine cs h,
    )

comment-IsLine : IsLine 256 cursor_comment
comment-IsLine = (one_line-IsOneLine cursor_comment refl, omega arith)

file_lines :
    (cs : List Cursor)
    → All IsCursor cs
    → fgets_lines 256 (cursor_file cs) ≡ with_newlines (cursor_comment ∷ cursor_text cs)
unfolding cursor_file
file_lines cs h =
    fgets_lines-unlines 256 (cursor_comment ∷ cursor_text cs) (comment-IsLine, text-IsLine cs h)

comment_skipped : cursor_line (cursor_comment ++ (10 ∷ [])) ≡ none
unfolding cursor_line
comment_skipped = refl

pub read-file :
    (handle : Bytes) (cs : List Cursor)
    → All IsCursor cs
    → chat_cursor_read (some (cursor_file cs)) handle ≡ index_of handle cs
read-file handle cs h =
    let lines = file_lines cs h in
    let comment = comment_skipped in
    let found = find_cursor-text handle cs h in
    unfold chat_cursor_read in rw lines (unfold find_cursor in rw comment found)

-- The entries with the new index.
abbrev pub set_all : Bytes → ℤ → List Cursor → List Cursor
set_all handle index [] = []
set_all handle index (c ∷ cs) =
    record { handle = c.handle; index = if str_eq c.handle handle then index else c.index }
    ∷ set_all handle index cs

load_cursors-text :
    (handle : Bytes) (index : ℤ) (cs : List Cursor) (slots : ℕ)
    → All IsCursor cs
    → length cs ≤ slots
    → load_cursors handle index (with_newlines (cursor_text cs)) slots ≡ set_all handle index cs
unfolding load_cursors
load_cursors-text handle index [] slots h fits = refl
load_cursors-text handle index (c ∷ cs) zero h fits = absurd (omega arith)
load_cursors-text handle index (c ∷ cs) (suc slots) (hc, h) fits =
    let line = cursor_line-line_of c hc in
    let value = value_parsed c.index hc.1 in
    rw (line, value, load_cursors-text handle index cs slots h (omega arith))

pub load-file :
    (handle : Bytes) (index : ℤ) (cs : List Cursor)
    → All IsCursor cs
    → length cs < max_participants
    → load_cursors handle index (old_lines (some (cursor_file cs))) max_participants
      ≡ set_all handle index cs
load-file handle index cs h room =
    let lines = file_lines cs h in
    let comment = comment_skipped in
    let loaded = load_cursors-text handle index cs 256 h (omega arith) in
    rw lines (unfold load_cursors in rw comment loaded)
