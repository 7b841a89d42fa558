-- ===== src/ChatFile/Participants.antt =====
-- The participants line: `safe_parse_int`, `parse_participants`, `format_participants` and
-- `update_participants`. The handle of a participant is a text of at most 63 bytes.
pub mod RoundTrip
pub mod Update
use epistemic_framework.Common.{
  ℕ, zero, suc, ◌+◌, ◌-◌, ◌^◌, ◌<◌, Bool, true, false, not, ◌&&◌, ◌||◌, List, [], ◌∷◌, ◌++◌, ltb,
  leb, ◌==◌, if◌then◌else◌, length, take, Bytes, codes, str_eq, span_until, Option, none, some, ◌≡◌,
  refl,
}
use epistemic_framework.Common.Int.{ℤ, pos, negsuc, within, int_min, int_max_ℤ}
use epistemic_framework.Common.Decimal.{print_ℤ, Strtoll, strtoll}

abbrev pub max_handle_len : ℕ
max_handle_len = 64

abbrev pub max_participants : ℕ
max_participants = 256

pub record Participant : Type 0 where
  pub handle : Bytes
  pub count : ℤ

-- `*endptr == '\0' || *endptr == '\n' || *endptr == '\r'`
abbrev pub at_line_end : Bytes → Bool
at_line_end [] = true
at_line_end (c ∷ _) = c == 10 || c == 13

unfoldable pub safe_parse_int64 : Bytes → Option ℤ
safe_parse_int64 str =
    let val = strtoll str in
    if val.out_of_range || not val.converted || not (at_line_end val.rest)
    then none
    else some val.value

unfoldable pub safe_parse_int : Bytes → Option ℤ
safe_parse_int str =
    let val = strtoll str in
    if val.out_of_range || not val.converted || not (at_line_end val.rest)
    then none
    else if not (within int_min int_max_ℤ val.value)
    then none
    else some val.value

abbrev pub or_zero : Option ℤ → ℤ
or_zero none = pos 0
or_zero (some z) = z

-- `while (*p == ' ' || *p == ',') p++;`
unfoldable pub skip_separators : Bytes → Bytes
skip_separators [] = []
skip_separators (c ∷ s) = if c == b' ' || c == b',' then skip_separators s else c ∷ s

abbrev pub ends_handle : ℕ → Bool
ends_handle c = c == b'(' || c == b',' || c == 10

abbrev pub closes_count : ℕ → Bool
closes_count c = c == b')'

abbrev pub drop_close : Bytes → Bytes
drop_close [] = []
drop_close (c ∷ s) = if c == b')' then s else c ∷ s

-- The count behind a handle, and what follows it.
unfoldable pub parse_count : Bytes → ℤ × Bytes
unfolding safe_parse_int
parse_count [] = (pos 0, [])
parse_count (c ∷ s) =
    let (number, rest) = span_until closes_count s in
    let value =
      if ltb 0 (length number) && ltb (length number) 16
      then or_zero (safe_parse_int number)
      else pos 0 in
    if c == b'(' then (value, drop_close rest) else (pos 0, c ∷ s)

-- One round, at the first byte that is no separator.
unfoldable pub parse_entry : (Bytes → List Participant) → Bytes → List Participant
parse_entry more [] = []
parse_entry more (c ∷ s) =
    let (handle, rest) = span_until ends_handle (c ∷ s) in
    let (count, rest') = parse_count rest in
    let entries = record { handle = handle; count = count } ∷ more rest' in
    if c == 10
    then []
    else if length handle == 0 || leb max_handle_len (length handle)
    then []
    else entries

-- The loop, with the free slots of the array that are left.
unfoldable pub parse_participants : ℕ → Bytes → List Participant
parse_participants zero p = []
parse_participants (suc slots) p = parse_entry (parse_participants slots) (skip_separators p)

-- `snprintf` of "%s(%d)" for each, with ", " between; the buffer is large enough, see below.
abbrev pub format_entry : Participant → Bytes
format_entry p = p.handle ++ (b'(' ∷ (print_ℤ p.count ++ (b')' ∷ [])))

unfoldable pub format_participants : List Participant → Bytes
format_participants [] = []
format_participants (p ∷ []) = format_entry p
format_participants (p ∷ q ∷ ps) = format_entry p ++ (b',' ∷ b' ' ∷ format_participants (q ∷ ps))

-- `parts[i].count++` on an int of 32 bits; at INT_MAX it overflows, and wraps around here.
abbrev pub increment : ℤ → ℤ
increment (pos n) = if n == 2 ^ 31 - 1 then negsuc (2 ^ 31 - 1) else pos (n + 1)
increment (negsuc zero) = pos 0
increment (negsuc (suc n)) = negsuc n

-- The search loop; `none` if no participant has the handle.
unfoldable pub bump : Bytes → List Participant → Option (List Participant)
bump handle [] = none
bump handle (p ∷ ps) =
    let rest = bump handle ps in
    if str_eq p.handle handle
    then some (record p { count = increment p.count } ∷ ps)
    else elim rest [ none ↦ none | some ps' ↦ some (p ∷ ps') ]

unfoldable pub add_participant : List Participant → Bytes → ℕ → List Participant
add_participant parts handle max_parts =
    if leb max_parts (length parts)
    then parts
    else parts ++ (record { handle = take (max_handle_len - 1) handle; count = pos 1 } ∷ [])

abbrev pub bumped_or : List Participant → Option (List Participant) → List Participant
bumped_or ps none = ps
bumped_or ps (some ps') = ps'

unfoldable pub update_participants : List Participant → Bytes → ℕ → List Participant
update_participants parts handle max_parts =
    bumped_or (add_participant parts handle max_parts) (bump handle parts)

two_parsed :
    parse_participants 256 (codes "alice(3), bob-2(-1)")
    ≡ record { handle = codes "alice"; count = pos 3 }
      ∷ record { handle = codes "bob-2"; count = negsuc 0 }
      ∷ []
unfolding parse_participants parse_entry skip_separators span_until parse_count strtoll
two_parsed = refl

two_formatted :
    format_participants (
      record { handle = codes "alice"; count = pos 3 }
      ∷ record { handle = codes "b"; count = pos 12 }
      ∷ [])
    ≡ codes "alice(3), b(12)"
unfolding format_participants print_ℤ
two_formatted = refl
