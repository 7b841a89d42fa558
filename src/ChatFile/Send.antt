-- ===== src/ChatFile/Send.antt =====
-- `chat_create` and `chat_send`: the text that they write into the chat file. Memory is always
-- enough, and writing to an open file does not fail.
use epistemic_framework.Common.{
  ℕ, ◌+◌, ◌-◌, ◌*◌, Bool, false, not, ◌&&◌, ◌||◌, List, [], ◌∷◌, ◌++◌, ltb, ◌==◌, if◌then◌else◌,
  length, take, Bytes, codes, str_eq, Option, none, some, ◌≡◌, refl,
}
use epistemic_framework.Common.Outcome.{Outcome, ok, ◌>>=◌, ◌>>◌, assert, require}
use epistemic_framework.Common.Int.{ℤ}
use epistemic_framework.Common.Decimal.{print_ℕ}
use epistemic_framework.Base64.{base64_encode, base64_encoded_size}
use epistemic_framework.ChatFile.Participants.{
  max_handle_len, max_participants, format_participants, update_participants,
}
use epistemic_framework.ChatFile.Length.{compute_file_length}
use epistemic_framework.ChatFile.Message.{message_line}
use epistemic_framework.Common.Fgets.{unlines}
use epistemic_framework.ChatFile.Lines.{read_lines}
use epistemic_framework.ChatFile.Read.{
  max_message_len, last_write_size, ChatState, header_mark, header_end, chat_read,
}

-- The lines in front of the messages, with what stands between the time and the participants.
abbrev pub header_lines : Bytes → Bytes → List Bytes → Bytes → List Bytes
header_lines last_writer last_write between parts_str =
    header_mark
    ∷ (codes "last-writer: " ++ last_writer)
    ∷ (codes "last-write: " ++ last_write)
    ∷ (between ++ ((codes "participants: " ++ parts_str) ∷ header_end ∷ []))

abbrev pub length_line : ℕ → Bytes
length_line n = codes "file-length: " ++ print_ℕ n

-- The text without the length line, whose length is computed, and the text that is written.
unfoldable pub content_without_length : Bytes → Bytes → Bytes → List Bytes → Bytes
content_without_length last_writer last_write parts_str lines =
    unlines (header_lines last_writer last_write [] parts_str ++ lines)

unfoldable pub content_with_length : Bytes → Bytes → ℕ → Bytes → List Bytes → Bytes
content_with_length last_writer last_write file_len parts_str lines =
    unlines (header_lines last_writer last_write (length_line file_len ∷ []) parts_str ++ lines)

-- `chat_create`: `exists` is what `stat` says. The postcondition compares the size of the file with the length in
-- its header. The codes -1 (the file exists) and -2 are both `error`.
unfoldable pub chat_create : Bool → Bytes → Outcome Bytes
chat_create exists timestamp = do
  require (not exists)
  let content = content_without_length (codes "system") timestamp [] []
  require (ltb (length content) 1024)
  let file_len = compute_file_length content
  let file = content_with_length (codes "system") timestamp file_len [] []
  assert (length file == file_len)
  ok file

-- The loop that collects the encoded lines: those behind the first line `---` that are not empty.
unfoldable pub collect_lines : Bool → List Bytes → List Bytes
collect_lines past_delim [] = []
collect_lines past_delim (line ∷ lines) =
    let rest = collect_lines (past_delim || str_eq line header_end) lines in
    if past_delim && ltb 0 (length line) then line ∷ rest else rest

-- What a send does: the new text of the chat file, and how many messages stand in front of the new one.
pub record Sent : Type 0 where
  pub file : Bytes
  pub encoded_line_count : ℕ

abbrev pub parts_size : ℕ
parts_size = 4096

-- From the state that was read: `encoded` is the new line, `old` the lines that are there.
unfoldable pub write_chat : ChatState → Bytes → Bytes → Bytes → List Bytes → Outcome Sent
write_chat state handle timestamp encoded old = do
  let participants = update_participants state.participants handle max_participants
  let last_writer = take (max_handle_len - 1) handle
  let last_write = take (last_write_size - 1) timestamp
  assert (ltb (length participants * (max_handle_len + 14)) parts_size)
  let parts_str = format_participants participants
  let header = unlines (header_lines last_writer last_write [] parts_str)
  assert (ltb (length header) 8192)
  let lines = old ++ (encoded ∷ [])
  let file_len = compute_file_length (content_without_length last_writer last_write parts_str lines)
  let file = content_with_length last_writer last_write file_len parts_str lines
  assert (length file == file_len)
  ok (record { file = file; encoded_line_count = length old })

-- A file that was read is there when it is opened again: no file is empty here, and the -1 for it is left out.
abbrev pub file_text : Option Bytes → Bytes
file_text none = []
file_text (some file) = file

-- The work of `chat_send` between its first look at the file and the write: `first` is what
-- `chat_read` finds, `second` what the loop over the lines finds when the file is opened again. `now` is the time in seconds, `timestamp` the same as text.
-- The buffer holds the whole code, unless that is longer than INT_MAX: then the encoder aborts.
unfoldable pub compose_send : Option Bytes → Option Bytes → Bytes → Bytes → ℤ → Bytes → Outcome Sent
compose_send first second handle message now timestamp = do
  state ← chat_read first
  let raw = message_line handle now message
  encoded_size ← base64_encoded_size (length raw)
  encoded ← base64_encode raw encoded_size
  let old = collect_lines false (read_lines max_message_len (file_text second))
  write_chat state handle timestamp encoded old

-- `chat_send` while nobody else writes.
unfoldable pub chat_send : Option Bytes → Bytes → Bytes → ℤ → Bytes → Outcome Sent
chat_send file = compose_send file file

created :
    chat_create false (codes "T")
    ≡ ok (
        codes
          "=== nbs-chat ===\nlast-writer: system\nlast-write: T\nfile-length: 86\nparticipants: \n---\n")
unfolding chat_create content_without_length content_with_length unlines compute_file_length print_ℕ
created = refl
