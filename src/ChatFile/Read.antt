-- ===== src/ChatFile/Read.antt =====
-- `chat_read`: the header and the messages of a chat file. Memory is always enough, and reading an
-- open file does not fail.
pub mod Bounds
use epistemic_framework.Common.{
  ℕ, ◌+◌, ◌-◌, ◌*◌, Bool, true, false, ◌&&◌, List, [], ◌∷◌, ◌++◌, ltb, leb, if◌then◌else◌, length,
  take, drop, Bytes, codes, str_eq, has_prefix, Option, none, some,
}
use epistemic_framework.Common.Outcome.{Outcome, ok, error, abort, ◌>>=◌, ◌>>◌, assert}
use epistemic_framework.Common.Int.{ℤ, pos}
use epistemic_framework.Base64.{base64_decode, base64_decoded_size}
use epistemic_framework.ChatFile.Participants.{
  Participant, max_handle_len, max_participants, safe_parse_int64, parse_participants,
}
use epistemic_framework.ChatFile.Message.{ChatMessage, parse_message}
use epistemic_framework.ChatFile.Lines.{read_lines}

abbrev pub max_message_len : ℕ
max_message_len = 1024 * 1024

abbrev pub max_messages : ℕ
max_messages = 10000

-- `sizeof(state->last_write)`
abbrev pub last_write_size : ℕ
last_write_size = 64

pub record ChatState : Type 0 where
  pub last_writer : Bytes
  pub last_write : Bytes
  pub file_length : ℤ
  pub participants : List Participant
  pub messages : List ChatMessage
  pub skipped_count : ℕ

abbrev pub empty_state : ChatState
empty_state = record {
  last_writer = [];
  last_write = [];
  file_length = pos 0;
  participants = [];
  messages = [];
  skipped_count = 0;
}

-- Where the loop is in the file, and what it has read.
pub record Reader : Type 0 where
  pub in_header : Bool
  pub past_header : Bool
  pub state : ChatState

abbrev pub header_mark : Bytes
header_mark = codes "=== nbs-chat ==="

abbrev pub header_end : Bytes
header_end = codes "---"

abbrev pub or_old : ℤ → Option ℤ → ℤ
or_old z none = z
or_old z (some new) = new

unfoldable pub parse_header : ChatState → Bytes → ChatState
parse_header state line =
    if has_prefix (codes "last-writer: ") line
    then record state { last_writer = take (max_handle_len - 1) (drop 13 line) }
    else if has_prefix (codes "last-write: ") line
    then record state { last_write = take (last_write_size - 1) (drop 12 line) }
    else if has_prefix (codes "file-length: ") line
    then record state { file_length = or_old state.file_length (safe_parse_int64 (drop 13 line)) }
    else if has_prefix (codes "participants: ") line
    then record state { participants = parse_participants max_participants (drop 14 line) }
    else state

abbrev pub add_message : ChatState → Option ChatMessage → ChatState
add_message state none = state
add_message state (some m) = record state { messages = state.messages ++ (m ∷ []) }

-- A line that does not decode is counted, and one that decodes to no message is passed over.
abbrev pub store_decoded : ChatState → Outcome Bytes → Outcome ChatState
store_decoded state (ok decoded) = parse_message decoded >>= λ m. ok (add_message state m)
store_decoded state error = ok (record state { skipped_count = state.skipped_count + 1 })
store_decoded state abort = abort

unfoldable pub read_message : ChatState → Bytes → Outcome ChatState
read_message state line = base64_decoded_size (length line) >>= λ decoded_max.
    store_decoded state (base64_decode line decoded_max)

abbrev pub with_state : Reader → Outcome ChatState → Outcome Reader
with_state r (ok state) = ok (record r { state = state })
with_state r error = error
with_state r abort = abort

-- One round of the loop, on a line without its newline.
unfoldable pub read_step : Reader → Bytes → Outcome Reader
read_step r line =
    let message = with_state r (read_message r.state line) in
    if str_eq line header_mark
    then ok (record r { in_header = true })
    else if r.in_header && str_eq line header_end
    then ok (record r { in_header = false; past_header = true })
    else if r.in_header
    then ok (record r { state = parse_header r.state line })
    else if r.past_header && ltb 0 (length line) && ltb (length r.state.messages) max_messages
    then message
    else ok r

unfoldable pub read_loop : Reader → List Bytes → Outcome Reader
read_loop r [] = ok r
read_loop r (line ∷ lines) = read_step r line >>= λ r'. read_loop r' lines

abbrev pub start : Reader
start = record { in_header = false; past_header = false; state = empty_state }

-- `none` is a file that cannot be opened.
unfoldable pub chat_read : Option Bytes → Outcome ChatState
chat_read none = error
chat_read (some file) = read_loop start (read_lines max_message_len file) >>= λ r.
    assert (leb (length r.state.messages) max_messages) >> ok r.state
