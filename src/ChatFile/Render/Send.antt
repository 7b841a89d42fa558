-- ===== src/ChatFile/Render/Send.antt =====
-- `chat_create` and `chat_send` write the file of a chat.
use epistemic_framework.Common.{
  ℕ, ◌+◌, ◌-◌, ◌*◌, ◌/◌, ◌%◌, ◌^◌, ◌≤◌, ◌<◌, true, false, List, [], ◌∷◌, ◌++◌, map, leb, ltb, ◌==◌,
  length, length-append, take, take_whole, All, All-map, Bytes, codes, str_eq, some, ◌≡◌, refl, sym,
  ◌∙◌, ap, arith,
}
use epistemic_framework.Common.Outcome.{ok}
use epistemic_framework.Common.Decimal.{print_ℕ}
use epistemic_framework.Base64.{base64_encoded_size, size_max}
use epistemic_framework.Base64.RoundTrip.{length-encode_groups}
use epistemic_framework.Base64.Codec.{base64_encode_fits}
use epistemic_framework.ChatFile.Length.{compute_file_length, compute_file_length_least}
use epistemic_framework.ChatFile.Participants.{
  max_handle_len, max_participants, format_participants, update_participants,
}
use epistemic_framework.ChatFile.Participants.Update.{length-format_participants}
use epistemic_framework.ChatFile.Message.{ChatMessage}
use epistemic_framework.Common.Fgets.{unlines}
use epistemic_framework.ChatFile.Lines.{read_lines}
use epistemic_framework.ChatFile.Read.{max_message_len, last_write_size, header_end}
use epistemic_framework.ChatFile.Send.{
  header_lines, length_line, content_without_length, content_with_length, collect_lines, parts_size,
  write_chat, compose_send, chat_send,
}
use epistemic_framework.ChatFile.Render.{
  Chat, raw, encode_line, chat_length, render, state_of, IsMessage, IsChat, append_message,
}
use epistemic_framework.ChatFile.Render.Line.{length-raw}
use epistemic_framework.ChatFile.Render.Lines.{entry-IsBounded, length-map-encode_line}
use epistemic_framework.ChatFile.Render.Read.{chat_lines, read_lines-render, chat_read-render}

module _ (w t p : Bytes) (n : ℕ) (lines : List Bytes) where
  -- The length line is the only difference of the two texts.
  length-content :
      length (content_with_length w t n p lines)
      ≡ length (content_without_length w t p lines) + 14 + length (print_ℕ n)
  unfolding content_with_length content_without_length unlines
  length-content =
      let tail = codes "participants: " ++ p in
      let rest = unlines (tail ∷ header_end ∷ lines) in
      omega (
        arith,
        length-append w (10 ∷ (codes "last-write: " ++ t) ++ (10 ∷ (length_line n ++ (10 ∷ rest)))),
        length-append w (10 ∷ (codes "last-write: " ++ t) ++ (10 ∷ rest)),
        length-append t (10 ∷ (length_line n ++ (10 ∷ rest))),
        length-append t (10 ∷ rest),
        length-append (print_ℕ n) (10 ∷ rest),
      )

  pub length-consistent :
      (n ≡ compute_file_length (content_without_length w t p lines))
      → length (content_with_length w t n p lines) ≡ n
  length-consistent e = omega (
    arith,
    e,
    length-content,
    rw (sym e) at ((compute_file_length_least (content_without_length w t p lines)).0),
  )

-- The length in the header is the length of the file.
pub length-render : (c : Chat) → length (render c) ≡ chat_length c
length-render c =
    let p = format_participants c.participants in
    let lines = map encode_line c.messages in
    let e : chat_length c
        ≡ compute_file_length (content_without_length c.last_writer c.last_write p lines) =
      unfold chat_length in refl in
    let r : length (content_with_length c.last_writer c.last_write (chat_length c) p lines)
        ≡ chat_length c =
      length-consistent c.last_writer c.last_write p (chat_length c) lines e in
    unfold render in r

not_empty : (m : ChatMessage) → ltb 0 (length (encode_line m)) ≡ true
not_empty m = ground (arith, length-encode_groups (raw m), length-raw m)

collect_lines-messages :
    (ms : List ChatMessage) → collect_lines true (map encode_line ms) ≡ map encode_line ms
unfolding collect_lines
collect_lines-messages [] = refl
collect_lines-messages (m ∷ ms) = rw (not_empty m, collect_lines-messages ms)

-- The lines that are collected are those of the messages.
collect_lines-chat_lines :
    (c : Chat) → collect_lines false (chat_lines c) ≡ map encode_line c.messages
unfolding collect_lines str_eq
collect_lines-chat_lines c = collect_lines-messages c.messages

map-append :
    (ms : List ChatMessage) (m : ChatMessage)
    → map encode_line (ms ++ (m ∷ [])) ≡ map encode_line ms ++ (encode_line m ∷ [])
map-append [] m = refl
map-append (x ∷ ms) m = ap (λ r. encode_line x ∷ r) (map-append ms m)

header_short :
    (w t p : Bytes)
    → length w < max_handle_len
    → length t < last_write_size
    → length p < parts_size
    → ltb (length (unlines (header_lines w t [] p))) 8192 ≡ true
unfolding unlines
header_short w t p hw ht hp =
    let rest = unlines (header_end ∷ []) in
    let n : length (unlines (header_lines w t [] p)) < 8192 = omega (
      arith,
      length-append w
          (10 ∷ (codes "last-write: " ++ t) ++ (10 ∷ (codes "participants: " ++ p) ++ (10 ∷ rest))),
      length-append t (10 ∷ (codes "participants: " ++ p) ++ (10 ∷ rest)),
      length-append p (10 ∷ rest),
    ) in
    ground arith

last-IsMessage :
    (ms : List ChatMessage) (m : ChatMessage) → All IsMessage (ms ++ (m ∷ [])) → IsMessage m
last-IsMessage [] m (h, _) = h
last-IsMessage (x ∷ ms) m (_, h) = last-IsMessage ms m h

encoded_size_lem :
    (n : ℕ)
    → (n + 2) / 3 * 4 + 2 ≤ max_message_len
    → base64_encoded_size n ≡ ok ((n + 2) / 3 * 4 + 1)
unfolding base64_encoded_size
encoded_size_lem n h =
    let fits : leb n ((size_max - 4) / 4 * 3) ≡ true = ground arith in
    let whole : ((n + 2) / 3 * 4 + 1) % 2 ^ 64 ≡ (n + 2) / 3 * 4 + 1 = omega arith in
    rw (fits, whole)

-- The file with one more line is the file of the chat with one more message.
render_append :
    (c : Chat) (m : ChatMessage) (t : Bytes)
    → (let p = format_participants (update_participants c.participants m.handle max_participants) in
        let lines = map encode_line c.messages ++ (encode_line m ∷ []) in
        content_with_length m.handle t
          (compute_file_length (content_without_length m.handle t p lines))
          p
          lines
        ≡ render (append_message c m t))
unfolding render chat_length
render_append c m t =
    let p = format_participants (update_participants c.participants m.handle max_participants) in
    ap
      (λ lines.
        content_with_length m.handle t
          (compute_file_length (content_without_length m.handle t p lines)) p lines)
      (sym (map-append c.messages m))

module _ (c : Chat) (m : ChatMessage) (t : Bytes) (before : IsChat c)
    (after : IsChat (append_message c m t))
    (room : length (update_participants c.participants m.handle max_participants)
        * (max_handle_len + 14)
      < parts_size) where
  write_chat_lem :
      write_chat (state_of c) m.handle t (encode_line m) (map encode_line c.messages)
      ≡ ok (record { file = render (append_message c m t); encoded_line_count = length c.messages })
  write_chat_lem =
      let ((_, lw), (_, lt), (hp, lp), _) = after in
      let parts = update_participants c.participants m.handle max_participants in
      let p = format_participants parts in
      let lines = map encode_line c.messages ++ (encode_line m ∷ []) in
      let n = compute_file_length (content_without_length m.handle t p lines) in
      let writer : take 63 m.handle ≡ m.handle = take_whole 63 m.handle (omega arith) in
      let write : take 63 t ≡ t = take_whole 63 t (omega arith) in
      let short : ltb (length parts * 78) 4096 ≡ true = ground arith in
      let line_short : length p < parts_size =
        omega (arith, length-format_participants parts (All-map _ _ entry-IsBounded parts hp)) in
      let header = header_short m.handle t p lw lt line_short in
      let same : (length (content_with_length m.handle t n p lines) == n) ≡ true =
        ground (arith, length-consistent m.handle t p n lines refl) in
      let e : write_chat (state_of c) m.handle t (encode_line m) (map encode_line c.messages)
          ≡ ok (record {
            file = content_with_length m.handle t n p lines;
            encoded_line_count = length (map encode_line c.messages);
          }) =
        unfold write_chat in rw (writer, write, short, header, same) in
      e ∙ rw (length-map-encode_line c.messages, render_append c m t)

  pub chat_send_lem :
      chat_send (some (render c)) m.handle m.content m.timestamp t
      ≡ ok (record { file = render (append_message c m t); encoded_line_count = length c.messages })
  chat_send_lem =
      let (_, _, _, (hm, _)) = after in
      let read = chat_read-render c before in
      let lines : collect_lines false (read_lines max_message_len (render c))
          ≡ map encode_line c.messages =
        rw (read_lines-render c before) (collect_lines-chat_lines c) in
      let (_, _, _, _, fits) = last-IsMessage c.messages m hm in
      let size = encoded_size_lem (length (raw m)) fits in
      let encoded =
        base64_encode_fits (raw m) ((length (raw m) + 2) / 3 * 4 + 1) (omega arith) (omega arith) in
      let written = write_chat_lem in
      unfold chat_send compose_send in rw (read, size, encoded, lines, written)
