-- ===== src/ChatFile/Render/Read.antt =====
-- `chat_read` on the file of a chat.
use epistemic_framework.Common.{
  ℕ, ◌+◌, ◌-◌, ◌≤◌, ◌<◌, true, false, List, [], ◌∷◌, ◌++◌, map, append-nil, append_assoc, leb, ltb,
  length, length-append, take, take_whole, All, All-append, All-map, Bytes, str_eq, has_prefix,
  some, ◌≡◌, sym, ◌∙◌, ap, arith,
}
use epistemic_framework.Common.Outcome.{ok, ◌>>=◌}
use epistemic_framework.Common.Int.{ℤ, pos, llong_max}
use epistemic_framework.Common.Decimal.{print_ℕ, strtoll}
use epistemic_framework.Common.Decimal.RoundTrip.{strtoll-print_ℕ}
use epistemic_framework.Base64.RoundTrip.{length-encode_groups}
use epistemic_framework.ChatFile.Participants.{
  Participant, max_handle_len, max_participants, safe_parse_int64, parse_participants,
  format_participants,
}
use epistemic_framework.ChatFile.Participants.RoundTrip.{parse_participants-format_participants}
use epistemic_framework.ChatFile.Message.{ChatMessage}
use epistemic_framework.ChatFile.Lines.{read_lines, read_lines-unlines}
use epistemic_framework.ChatFile.Read.{
  max_message_len, max_messages, last_write_size, ChatState, Reader, parse_header, read_step,
  read_loop, start, chat_read,
}
use epistemic_framework.ChatFile.Send.{header_lines, length_line, content_with_length}
use epistemic_framework.ChatFile.Render.{
  Chat, raw, encode_line, chat_length, render, state_of, IsMessage, IsChat,
}
use epistemic_framework.ChatFile.Render.Lines.{
  IsChatLine, lines-IsChatLine, entry-IsListable, header-IsChatLine, length_line-IsChatLine,
  chat_length_bound,
}
use epistemic_framework.ChatFile.Render.Line.{not_header_mark, read_message-encode_line, length-raw}

abbrev message_state : Bytes → Bytes → ℤ → List Participant → List ChatMessage → ChatState
message_state writer write n parts messages = record {
  last_writer = writer;
  last_write = write;
  file_length = n;
  participants = parts;
  messages = messages;
  skipped_count = 0;
}

abbrev in_messages : ChatState → Reader
in_messages s = record { in_header = false; past_header = true; state = s }

module _ (writer write : Bytes) (n : ℤ) (parts : List Participant) where
  read_step-message :
      (old : List ChatMessage) (m : ChatMessage)
      → IsMessage m
      → length old < max_messages
      → read_step (in_messages (message_state writer write n parts old)) (encode_line m)
        ≡ ok (in_messages (message_state writer write n parts (old ++ (m ∷ []))))
  read_step-message old m h room =
      let mark = not_header_mark m h in
      let some_len : ltb 0 (length (encode_line m)) ≡ true =
        ground (arith, length-encode_groups (raw m), length-raw m) in
      let free : ltb (length old) max_messages ≡ true = ground arith in
      let read = read_message-encode_line (message_state writer write n parts old) m h in
      unfold read_step in rw (mark, some_len, free, read)

  read_loop-messages :
      (old ms : List ChatMessage)
      → All IsMessage ms
      → length old + length ms ≤ max_messages
      → read_loop (in_messages (message_state writer write n parts old)) (map encode_line ms)
        ≡ ok (in_messages (message_state writer write n parts (old ++ ms)))
  unfolding read_loop
  read_loop-messages old [] h room =
      ap (λ l. ok (in_messages (message_state writer write n parts l))) (sym (append-nil old))
  read_loop-messages old (m ∷ ms) (hm, h) room =
      ap (λ o. o >>= λ r'. read_loop r' (map encode_line ms))
        (read_step-message old m hm (omega arith))
      ∙ read_loop-messages (old ++ (m ∷ [])) ms h (omega (arith, length-append old (m ∷ [])))
      ∙ ap (λ l. ok (in_messages (message_state writer write n parts l)))
          (append_assoc old (m ∷ []) ms)

module _ (w t : Bytes) (n : ℕ) (ps : List Participant) where
  read_loop-header_lines :
      (rest : List Bytes)
      → take (max_handle_len - 1) w ≡ w
      → take (last_write_size - 1) t ≡ t
      → safe_parse_int64 (print_ℕ n) ≡ some (pos n)
      → parse_participants max_participants (format_participants ps) ≡ ps
      → read_loop start (header_lines w t (length_line n ∷ []) (format_participants ps) ++ rest)
        ≡ read_loop (in_messages (message_state w t (pos n) ps [])) rest
  unfolding read_loop read_step parse_header str_eq has_prefix
  read_loop-header_lines rest hw ht hn hp = rw (hw, ht, hn, hp)

-- All lines of the file of a chat.
abbrev pub chat_lines : Chat → List Bytes
chat_lines c =
    header_lines c.last_writer c.last_write (length_line (chat_length c) ∷ [])
      (format_participants c.participants)
    ++ map encode_line c.messages

pub read_lines-render : (c : Chat) → IsChat c → read_lines max_message_len (render c) ≡ chat_lines c
read_lines-render c h =
    let ((hw, lw), (ht, lt), (hp, lp), (hm, lm)) = h in
    let first = length_line (chat_length c) ∷ [] in
    let header =
      header_lines c.last_writer c.last_write first (format_participants c.participants) in
    let length_ok : All IsChatLine first =
      (length_line-IsChatLine (chat_length c) (chat_length_bound c h), tt) in
    let header_ok : All IsChatLine header =
      header-IsChatLine c.last_writer c.last_write first c.participants hw lw ht lt length_ok hp
        lp in
    let all_ok : All IsChatLine (chat_lines c) =
      All-append IsChatLine header (map encode_line c.messages) header_ok
        (lines-IsChatLine c.messages hm) in
    unfold render in
    unfold content_with_length in read_lines-unlines max_message_len (chat_lines c) all_ok

safe_parse_int64-print : (n : ℕ) → n ≤ llong_max → safe_parse_int64 (print_ℕ n) ≡ some (pos n)
safe_parse_int64-print n h =
    let read : strtoll (print_ℕ n ++ [])
        ≡ record { value = pos n; converted = true; rest = []; out_of_range = false } =
      strtoll-print_ℕ n [] h tt in
    let read' : strtoll (print_ℕ n)
        ≡ record { value = pos n; converted = true; rest = []; out_of_range = false } =
      rw append-nil at read in
    unfold safe_parse_int64 in rw read'

read_loop-chat_lines :
    (c : Chat) → IsChat c → read_loop start (chat_lines c) ≡ ok (in_messages (state_of c))
read_loop-chat_lines c h =
    let ((hw, lw), (ht, lt), (hp, lp), (hm, lm)) = h in
    let listable = All-map _ _ entry-IsListable c.participants hp in
    read_loop-header_lines c.last_writer c.last_write (chat_length c) c.participants
      (map encode_line c.messages) (take_whole 63 c.last_writer (omega arith))
      (take_whole 63 c.last_write (omega arith))
      (safe_parse_int64-print (chat_length c) (omega (arith, chat_length_bound c h)))
      (parse_participants-format_participants max_participants c.participants listable lp)
    ∙ read_loop-messages c.last_writer c.last_write (pos (chat_length c)) c.participants []
        c.messages hm (omega arith)

-- The file of a chat is read back as the chat: its last writer and time, the length in the header,
-- every participant with its count, and every message in order with its sender, time and content;
-- no line is skipped and no assertion fires.
pub chat_read-render : (c : Chat) → IsChat c → chat_read (some (render c)) ≡ ok (state_of c)
chat_read-render c h =
    let ((_, _), (_, _), (_, _), (hm, lm)) = h in
    let lines = read_lines-render c h in
    let loop = read_loop-chat_lines c h in
    let room : leb (length c.messages) max_messages ≡ true = ground arith in
    unfold chat_read in rw (lines, loop, room)
