-- ===== src/ChatFile/Render/Lines.antt =====
-- The lines of a chat's file are read back whole, and the file's length is bounded.
use epistemic_framework.Common.{
  ℕ, suc, ◌+◌, ◌*◌, ◌^◌, ◌≤◌, ◌<◌, true, false, List, [], ◌∷◌, ◌++◌, map, length, length-append,
  All, All-append, All-map, Bytes, codes, ◌≡◌, refl, arith,
}
use epistemic_framework.Common.Int.{ℤ, pos, negsuc}
use epistemic_framework.Common.Decimal.{print_ℕ, print_ℤ, not_digit}
use epistemic_framework.Common.Decimal.RoundTrip.{print_ℕ-IsDigits}
use epistemic_framework.Common.Decimal.Length.{length-print_ℕ_pow}
use epistemic_framework.ChatFile.Length.{compute_file_length_bound}
use epistemic_framework.ChatFile.Participants.{
  Participant, max_handle_len, max_participants, format_entry, format_participants,
}
use epistemic_framework.ChatFile.Participants.RoundTrip.{IsListable, IsHandle}
use epistemic_framework.ChatFile.Participants.Update.{IsBounded, length-format_participants}
use epistemic_framework.ChatFile.Message.{ChatMessage}
use epistemic_framework.Common.Fgets.{one_line, one_line-IsOneLine, IsLine, unlines, length-unlines}
use epistemic_framework.ChatFile.Read.{max_message_len, last_write_size, header_mark, header_end}
use epistemic_framework.ChatFile.Send.{header_lines, length_line, content_without_length}
use epistemic_framework.ChatFile.Render.{
  Chat, encode_line, chat_length, is_plain_break, IsPlain, IsMessage, IsEntry, IsChat,
}
use epistemic_framework.ChatFile.Render.Line.{encode_line-IsLine}

abbrev pub IsChatLine : Bytes → Type 0
IsChatLine = IsLine max_message_len

labelled :
    (label s : Bytes)
    → one_line label ≡ true
    → IsPlain s
    → length label + length s < 100000
    → IsChatLine (label ++ s)
labelled label s hl hs short =
    (All-append _ label s (one_line-IsOneLine label hl) hs, omega (arith, length-append label s))

digit_plain : (c : ℕ) → not_digit c ≡ false → is_plain_break c ≡ false
digit_plain c h = ground arith

print_ℕ-IsPlain : (n : ℕ) → IsPlain (print_ℕ n)
print_ℕ-IsPlain n = All-map _ _ digit_plain (print_ℕ n) (print_ℕ-IsDigits n)

pub print_ℤ-IsPlain : (z : ℤ) → IsPlain (print_ℤ z)
unfolding print_ℤ
print_ℤ-IsPlain (pos n) = print_ℕ-IsPlain n
print_ℤ-IsPlain (negsuc n) = (refl, print_ℕ-IsPlain (suc n))

format_entry-IsPlain : (p : Participant) → IsPlain p.handle → IsPlain (format_entry p)
format_entry-IsPlain p h =
    All-append _ p.handle _ h
      (refl, All-append _ (print_ℤ p.count) _ (print_ℤ-IsPlain p.count) (refl, tt))

format_participants-IsPlain :
    (ps : List Participant) → All IsEntry ps → IsPlain (format_participants ps)
unfolding format_participants
format_participants-IsPlain [] h = tt
format_participants-IsPlain (p ∷ []) ((_, hp), _) = format_entry-IsPlain p hp
format_participants-IsPlain (p ∷ q ∷ ps) ((_, hp), h) =
    All-append _ (format_entry p) _ (format_entry-IsPlain p hp)
      (refl, (refl, format_participants-IsPlain (q ∷ ps) h))

pub handle_short : (s : Bytes) → IsHandle s → length s < max_handle_len
handle_short [] h = absurd h
handle_short (c ∷ s) (_, _, h) = h

pub entry-IsBounded : (p : Participant) → IsEntry p → IsBounded p
entry-IsBounded p ((h, i), _) = (handle_short p.handle h, i)

pub entry-IsListable : (p : Participant) → IsEntry p → IsListable p
entry-IsListable p (h, _) = h

pub lines-IsChatLine :
    (ms : List ChatMessage) → All IsMessage ms → All IsChatLine (map encode_line ms)
lines-IsChatLine [] h = tt
lines-IsChatLine (m ∷ ms) (hm, h) = (encode_line-IsLine m hm, lines-IsChatLine ms h)

pub length-map-encode_line : (ms : List ChatMessage) → length (map encode_line ms) ≡ length ms
length-map-encode_line [] = refl
length-map-encode_line (m ∷ ms) = omega (arith, length-map-encode_line ms)

pub header-IsChatLine :
    (w t : Bytes) (between : List Bytes) (ps : List Participant)
    → IsPlain w
    → length w < max_handle_len
    → IsPlain t
    → length t < last_write_size
    → All IsChatLine between
    → All IsEntry ps
    → length ps ≤ max_participants
    → All IsChatLine (header_lines w t between (format_participants ps))
header-IsChatLine w t between ps hw lw ht lt hb hp lp =
    let mark : IsChatLine header_mark = labelled header_mark [] refl tt (omega arith) in
    let bounded = All-map _ _ entry-IsBounded ps hp in
    (
      mark,
      (
        labelled (codes "last-writer: ") w refl hw (omega arith),
        (
          labelled (codes "last-write: ") t refl ht (omega arith),
          All-append _ between _ hb (
            labelled (codes "participants: ") (format_participants ps) refl
                (format_participants-IsPlain ps hp)
                (omega (arith, length-format_participants ps bounded)),
            (labelled header_end [] refl tt (omega arith), tt),
          ),
        ),
      ),
    )

pub chat_length_bound : (c : Chat) → IsChat c → chat_length c < 10 ^ 11
chat_length_bound c ((hw, lw), (ht, lt), (hp, lp), (hm, lm)) =
    let header = header_lines c.last_writer c.last_write [] (format_participants c.participants) in
    let lines = header ++ map encode_line c.messages in
    let header_ok =
      header-IsChatLine c.last_writer c.last_write [] c.participants hw lw ht lt tt hp lp in
    let all_ok = All-append _ header _ header_ok (lines-IsChatLine c.messages hm) in
    let total : length (unlines lines) ≤ length lines * max_message_len =
      length-unlines max_message_len lines all_ok in
    let count : length lines ≤ 10005 = omega (
      arith,
      length-append header (map encode_line c.messages),
      length-map-encode_line c.messages,
    ) in
    let some : 1 ≤ length (unlines lines) = unfold unlines in omega arith in
    let bound = compute_file_length_bound (unlines lines) some in
    unfold chat_length in unfold content_without_length in omega (arith, bound)

pub length_line-IsChatLine : (n : ℕ) → n < 10 ^ 11 → IsChatLine (length_line n)
length_line-IsChatLine n h =
    labelled (codes "file-length: ") (print_ℕ n) refl (print_ℕ-IsPlain n)
      (omega (arith, length-print_ℕ_pow 11 n (omega arith) h))
