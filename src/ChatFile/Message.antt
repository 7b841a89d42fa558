-- ===== src/ChatFile/Message.antt =====
-- One message: the line that `chat_send` encodes, and what `chat_read` makes of the bytes that it
-- decodes. The bytes may hold a NUL, at which the string functions stop.
pub mod RoundTrip
use epistemic_framework.Common.{
  ℕ, zero, suc, ◌<◌, Bool, true, false, not, ◌&&◌, ◌||◌, List, [], ◌∷◌, ◌++◌, ltb, leb, ◌==◌,
  if◌then◌else◌, length, Bytes, codes, span_until, Option, none, some, ◌≡◌, refl,
}
use epistemic_framework.Common.Outcome.{Outcome, ok, error, abort, ◌>>◌, assert}
use epistemic_framework.Common.Int.{ℤ, pos, negsuc}
use epistemic_framework.Common.Decimal.{print_ℤ, strtoll}
use epistemic_framework.ChatFile.Participants.{max_handle_len, safe_parse_int64}

pub record ChatMessage : Type 0 where
  pub handle : Bytes
  pub content : Bytes
  pub timestamp : ℤ

-- `snprintf` of "%s|%s: %s", the epoch printed before.
unfoldable pub message_line : Bytes → ℤ → Bytes → Bytes
message_line handle now message = handle ++ (b'|' ∷ (print_ℤ now ++ (b':' ∷ b' ' ∷ message)))

abbrev pub starts_with_space : Bytes → Bool
starts_with_space [] = false
starts_with_space (c ∷ _) = c == b' '

abbrev pub after_one : Bytes → Bytes
after_one [] = []
after_one (_ ∷ s) = s

abbrev pub before : ℕ → Option (Bytes × Bytes) → Option (Bytes × Bytes)
before c none = none
before c (some (prefix, content)) = some (c ∷ prefix, content)

-- `strstr(decoded, ": ")`: what stands before the separator, and what stands behind it.
unfoldable pub find_separator : Bytes → Option (Bytes × Bytes)
find_separator [] = none
find_separator (c ∷ s) =
    let rest = find_separator s in
    if c == 0
    then none
    else if c == b':' && starts_with_space s
    then some ([], after_one s)
    else before c rest

-- `time_t msg_timestamp`: 0 unless the epoch is a positive number.
abbrev pub positive_or_zero : Option ℤ → ℤ
positive_or_zero none = pos 0
positive_or_zero (some (pos n)) = pos n
positive_or_zero (some (negsuc n)) = pos 0

unfoldable pub parse_epoch : Bytes → ℤ
parse_epoch epoch =
    if ltb 0 (length epoch) && ltb (length epoch) 20
    then positive_or_zero (safe_parse_int64 epoch)
    else pos 0

abbrev pub is_pipe : ℕ → Bool
is_pipe c = c == b'|'

-- `handle|EPOCH` or `handle`.
abbrev pub split_prefix : Bytes → Bytes → Bytes × ℤ
split_prefix handle [] = (handle, pos 0)
split_prefix handle (_ ∷ epoch) = (handle, parse_epoch epoch)

unfoldable pub parse_prefix : Bytes → Bytes × ℤ
parse_prefix prefix = split_prefix (span_until is_pipe prefix).0 (span_until is_pipe prefix).1

abbrev pub is_nul : ℕ → Bool
is_nul c = c == 0

-- `strlen` of bytes behind which a NUL stands.
abbrev pub strlen : Bytes → ℕ
strlen s = length (span_until is_nul s).0

unfoldable pub store_message : Bytes × ℤ → Bytes → Outcome (Option ChatMessage)
store_message (handle, timestamp) content =
    let stored =
      assert (length content == strlen content)
      >> ok (some (record { handle = handle; content = content; timestamp = timestamp })) in
    if ltb (length handle) max_handle_len && ltb 0 (length handle) then stored else ok none

-- `ok none` for bytes that are no message: they are passed over, and not counted as skipped.
abbrev pub parse_at : Option (Bytes × Bytes) → Outcome (Option ChatMessage)
parse_at none = ok none
parse_at (some (prefix, content)) = store_message (parse_prefix prefix) content

unfoldable pub parse_message : Bytes → Outcome (Option ChatMessage)
parse_message decoded = parse_at (find_separator decoded)

two_forms :
    (parse_message (codes "al|17: x: y")
      ≡ ok (some (record { handle = codes "al"; content = codes "x: y"; timestamp = pos 17 })))
    × (parse_message (codes "al: hi")
        ≡ ok (some (record { handle = codes "al"; content = codes "hi"; timestamp = pos 0 })))
unfolding parse_message find_separator store_message parse_prefix span_until parse_epoch
    safe_parse_int64 strtoll
two_forms = (refl, refl)
