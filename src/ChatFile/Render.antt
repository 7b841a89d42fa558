-- ===== src/ChatFile/Render.antt =====
-- The chat as its users see it, and the file that stands for it: the abstract side of `chat_read`
-- and `chat_send`.
pub mod Line
pub mod Lines
pub mod Read
pub mod Send
pub mod Refine
use epistemic_framework.Common.{
  ℕ, ◌+◌, ◌*◌, ◌/◌, ◌≤◌, ◌<◌, Bool, false, ◌||◌, List, [], ◌∷◌, ◌++◌, map, ◌==◌, length, All, Lacks,
  Bytes, ◌≡◌,
}
use epistemic_framework.Common.Int.{ℤ, pos, llong_max}
use epistemic_framework.Base64.{encode_groups}
use epistemic_framework.Base64.Decode.{IsByte}
use epistemic_framework.ChatFile.Participants.{
  Participant, max_handle_len, max_participants, format_participants, update_participants,
}
use epistemic_framework.ChatFile.Participants.RoundTrip.{IsListable}
use epistemic_framework.ChatFile.Length.{compute_file_length}
use epistemic_framework.ChatFile.Message.{ChatMessage, message_line}
use epistemic_framework.ChatFile.Message.RoundTrip.{IsSender}
use epistemic_framework.ChatFile.Read.{max_message_len, max_messages, ChatState, last_write_size}
use epistemic_framework.ChatFile.Send.{content_without_length, content_with_length}

-- Who wrote last and when, who takes part, and all messages in order.
pub record Chat : Type 0 where
  pub last_writer : Bytes
  pub last_write : Bytes
  pub participants : List Participant
  pub messages : List ChatMessage

abbrev pub raw : ChatMessage → Bytes
raw m = message_line m.handle m.timestamp m.content

abbrev pub encode_line : ChatMessage → Bytes
encode_line m = encode_groups (raw m)

unfoldable pub chat_length : Chat → ℕ
chat_length c = compute_file_length (
    content_without_length c.last_writer c.last_write (format_participants c.participants)
      (map encode_line c.messages))

-- The file of a chat.
unfoldable pub render : Chat → Bytes
render c =
    content_with_length c.last_writer c.last_write (chat_length c)
      (format_participants c.participants) (map encode_line c.messages)

-- What the reader has to report of a chat.
abbrev pub state_of : Chat → ChatState
state_of c = record {
  last_writer = c.last_writer;
  last_write = c.last_write;
  file_length = pos (chat_length c);
  participants = c.participants;
  messages = c.messages;
  skipped_count = 0;
}

abbrev pub is_plain_break : ℕ → Bool
is_plain_break c = c == 0 || c == 10 || c == 13

-- A text without NUL, newline and carriage return.
abbrev pub IsPlain : Bytes → Type 0
IsPlain = All (λ c. is_plain_break c ≡ false)

-- A message that fits the file: its sender can be read back, its time is positive, its content has
-- no NUL, and its line fits the buffer of the readers.
abbrev pub IsMessage : ChatMessage → Type 0
IsMessage m =
    IsSender m.handle
    × ((now : ℕ) × (m.timestamp ≡ pos now) × (1 ≤ now) × (now ≤ llong_max))
    × Lacks 0 m.content
    × All IsByte (raw m)
    × ((length (raw m) + 2) / 3 * 4 + 2 ≤ max_message_len)

abbrev pub IsEntry : Participant → Type 0
IsEntry p = IsListable p × IsPlain p.handle

abbrev pub IsChat : Chat → Type 0
IsChat c =
    (IsPlain c.last_writer × (length c.last_writer < max_handle_len))
    × (IsPlain c.last_write × (length c.last_write < last_write_size))
    × (All IsEntry c.participants × (length c.participants ≤ max_participants))
    × (All IsMessage c.messages × (length c.messages ≤ max_messages))

-- The chat after one more message.
abbrev pub append_message : Chat → ChatMessage → Bytes → Chat
append_message c m timestamp = record {
  last_writer = m.handle;
  last_write = timestamp;
  participants = update_participants c.participants m.handle max_participants;
  messages = c.messages ++ (m ∷ []);
}
