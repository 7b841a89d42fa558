-- ===== src/ChatFile/Cursors.antt =====
-- The cursor file: `chat_cursor_read` and `chat_cursor_write` under the lock. Writing the new file
-- and renaming it do not fail.
pub mod Lines
pub mod Store
use epistemic_framework.Common.{
  ℕ, zero, suc, ◌-◌, Bool, true, false, not, ◌&&◌, ◌||◌, List, [], ◌∷◌, ◌++◌, ltb, leb, ◌==◌,
  if◌then◌else◌, length, take, Bytes, codes, str_eq, span_until, Option, none, some, ◌≡◌, refl,
}
use epistemic_framework.Common.Outcome.{Outcome, ok, ◌>>◌, assert}
use epistemic_framework.Common.Int.{ℤ, pos, negsuc, leb_ℤ}
use epistemic_framework.Common.Decimal.{print_ℤ}
use epistemic_framework.Common.Fgets.{fgets_lines, unlines}
use epistemic_framework.ChatFile.Participants.{
  max_handle_len, max_participants, safe_parse_int, or_zero,
}

pub record Cursor : Type 0 where
  pub handle : Bytes
  pub index : ℤ

abbrev pub is_equals : ℕ → Bool
is_equals c = c == b'='

abbrev pub key_and_value : Bytes × Bytes → Option (Bytes × Bytes)
key_and_value (key, []) = none
key_and_value (key, _ ∷ value) = if leb max_handle_len (length key) then none else some (key, value)

-- A line that is no comment and not blank, with a `=` behind a key of at most 63 bytes.
unfoldable pub cursor_line : Bytes → Option (Bytes × Bytes)
cursor_line [] = none
cursor_line (c ∷ s) =
    if c == b'#' || c == 10 then none else key_and_value (span_until is_equals (c ∷ s))

abbrev pub minus_one : ℤ
minus_one = negsuc 0

abbrev pub or_minus_one : Option ℤ → ℤ
or_minus_one none = minus_one
or_minus_one (some z) = z

-- The first line with the key decides.
abbrev pub cursor_here : Bytes → Option (Bytes × Bytes) → ℤ → ℤ
cursor_here handle none later = later
cursor_here handle (some (key, value)) later =
    if str_eq key handle then or_minus_one (safe_parse_int value) else later

unfoldable pub find_cursor : Bytes → List Bytes → ℤ
find_cursor handle [] = minus_one
find_cursor handle (line ∷ lines) = cursor_here handle (cursor_line line) (find_cursor handle lines)

-- `none` is a file that is not there yet.
unfoldable pub chat_cursor_read : Option Bytes → Bytes → ℤ
chat_cursor_read none handle = minus_one
chat_cursor_read (some file) handle = find_cursor handle (fgets_lines 256 file)

-- One round of the loop that reads the old cursors: the entry for `handle` gets the new index.
abbrev pub load_cursor : Bytes → ℤ → Option (Bytes × Bytes) → (ℕ → List Cursor) → ℕ → List Cursor
load_cursor handle index o more zero = []
load_cursor handle index none more (suc slots) = more (suc slots)
load_cursor handle index (some (key, value)) more (suc slots) =
    record {
      handle = key;
      index = if str_eq key handle then index else or_zero (safe_parse_int value);
    }
    ∷ more slots

unfoldable pub load_cursors : Bytes → ℤ → List Bytes → ℕ → List Cursor
load_cursors handle index [] slots = []
load_cursors handle index (line ∷ lines) slots =
    load_cursor handle index (cursor_line line) (load_cursors handle index lines) slots

-- `found`
unfoldable pub has_cursor : Bytes → List Cursor → Bool
has_cursor handle [] = false
has_cursor handle (c ∷ cs) = str_eq c.handle handle || has_cursor handle cs

unfoldable pub add_cursor : Bytes → ℤ → List Cursor → List Cursor
add_cursor handle index cs =
    if not (has_cursor handle cs) && ltb (length cs) max_participants
    then cs ++ (record { handle = take (max_handle_len - 1) handle; index = index } ∷ [])
    else cs

-- The comment's dash is three bytes.
abbrev pub cursor_comment : Bytes
cursor_comment =
    codes "# Read cursors " ++ (226 ∷ 128 ∷ 148 ∷ codes " last-read message index per handle")

abbrev pub cursor_text : List Cursor → List Bytes
cursor_text [] = []
cursor_text (c ∷ cs) = (c.handle ++ (b'=' ∷ print_ℤ c.index)) ∷ cursor_text cs

unfoldable pub cursor_file : List Cursor → Bytes
cursor_file cs = unlines (cursor_comment ∷ cursor_text cs)

abbrev pub old_lines : Option Bytes → List Bytes
old_lines none = []
old_lines (some file) = fgets_lines 256 file

unfoldable pub chat_cursor_write : Option Bytes → Bytes → ℤ → Outcome Bytes
chat_cursor_write file handle index =
    assert (leb_ℤ (pos 0) index)
    >> ok (
        cursor_file
          (add_cursor handle index (load_cursors handle index (old_lines file) max_participants)))
