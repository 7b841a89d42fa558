-- ===== src/ChatFile/Render/Line.antt =====
-- One encoded line of the file, as the reader takes it.
use epistemic_framework.Common.{
  ℕ, ◌+◌, ◌-◌, ◌*◌, ◌/◌, ◌%◌, ◌^◌, ◌≤◌, true, false, [], ◌∷◌, ◌++◌, append-nil, leb, length,
  length-append, All, All-map, str_eq, str_eq_iff, ◌≡◌, sym, ◌∙◌, ap, arith, inl, inr, Bool-cases,
  some,
}
use epistemic_framework.Common.Outcome.{ok}
use epistemic_framework.Common.Decimal.{print_ℤ}
use epistemic_framework.Base64.{base64_decode, base64_decoded_size, is_valid_base64_char, size_max}
use epistemic_framework.Base64.Grammar.{IsBase64-All}
use epistemic_framework.Base64.RoundTrip.{encode_groups-IsBase64, length-encode_groups}
use epistemic_framework.Base64.Codec.{base64_decode-encode_groups}
use epistemic_framework.ChatFile.Message.{ChatMessage, message_line, parse_message}
use epistemic_framework.ChatFile.Message.RoundTrip.{parse_message-message_line}
use epistemic_framework.Common.Fgets.{IsLine}
use epistemic_framework.ChatFile.Read.{
  max_message_len, ChatState, add_message, read_message, header_mark,
}
use epistemic_framework.ChatFile.Render.{raw, encode_line, IsMessage, is_plain_break}

valid_plain : (c : ℕ) → is_valid_base64_char c ≡ true → is_plain_break c ≡ false
unfolding is_valid_base64_char
valid_plain c h = ground arith

pub length-raw : (m : ChatMessage) → 3 ≤ length (raw m)
length-raw m =
    let tail = b':' ∷ b' ' ∷ m.content in
    unfold message_line in
    omega (
      arith,
      length-append m.handle (b'|' ∷ (print_ℤ m.timestamp ++ tail)),
      length-append (print_ℤ m.timestamp) tail,
    )

-- The line is plain, fits the buffer and is not empty.
pub encode_line-IsLine : (m : ChatMessage) → IsMessage m → IsLine max_message_len (encode_line m)
encode_line-IsLine m (_, _, _, bytes, fits) = (
  All-map _ _ valid_plain (encode_line m) (IsBase64-All (encode_groups-IsBase64 (raw m) bytes)),
  omega (arith, length-encode_groups (raw m)),
)

decode_line :
    (m : ChatMessage) (size : ℕ)
    → IsMessage m
    → 1 ≤ size
    → length (raw m) ≤ size
    → base64_decode (encode_line m) size ≡ ok (raw m)
decode_line m size (_, _, _, bytes, fits) one room =
    let e : base64_decode (encode_line m ++ []) size ≡ ok (raw m) =
      base64_decode-encode_groups (raw m) [] size bytes tt (omega arith) one room in
    rw append-nil at e

header_mark_invalid : All (λ c. is_valid_base64_char c ≡ true) header_mark → ⊥
unfolding is_valid_base64_char
header_mark_invalid (_, (_, (_, (space, _)))) = ground arith

pub not_header_mark : (m : ChatMessage) → IsMessage m → str_eq (encode_line m) header_mark ≡ false
not_header_mark m h = elim (Bool-cases (str_eq (encode_line m) header_mark)) [
  | inl same ↦
      let (_, _, _, bytes, _) = h in
      let valid : All (λ c. is_valid_base64_char c ≡ true) header_mark =
        rw ((str_eq_iff (encode_line m) header_mark).0 same) at
          (IsBase64-All (encode_groups-IsBase64 (raw m) bytes)) in
      absurd (header_mark_invalid valid)
  | inr other ↦ other
]

parse_raw : (m : ChatMessage) → IsMessage m → parse_message (raw m) ≡ ok (some m)
parse_raw m (sender, (now, time, one, fits), no_nul, _, _) =
    ap (λ t. parse_message (message_line m.handle t m.content)) time
    ∙ parse_message-message_line m.handle now m.content sender one fits no_nul
    ∙ ap (λ t. ok (some (record { handle = m.handle; content = m.content; timestamp = t })))
        (sym time)

decoded_size_lem : (n : ℕ) → n ≤ max_message_len → base64_decoded_size n ≡ ok (n / 4 * 3 + 3)
unfolding base64_decoded_size
decoded_size_lem n h =
    let fits : leb n (size_max - 3) ≡ true = ground arith in
    let whole : (n / 4 * 3 + 3) % 2 ^ 64 ≡ n / 4 * 3 + 3 = omega arith in rw (fits, whole)

pub read_message-encode_line :
    (state : ChatState) (m : ChatMessage)
    → IsMessage m
    → read_message state (encode_line m) ≡ ok (add_message state (some m))
read_message-encode_line state m h =
    let n = length (encode_line m) in
    let (_, _, _, bytes, fits) = h in
    let size = decoded_size_lem n (omega (arith, length-encode_groups (raw m))) in
    let decoded =
      decode_line m (n / 4 * 3 + 3) h (omega arith) (omega (arith, length-encode_groups (raw m))) in
    let parsed = parse_raw m h in unfold read_message in rw (size, decoded, parsed)
