-- ===== src/ChatFile/Lock/Chats.antt =====
-- Sends by several processes on the file of a chat.
use epistemic_framework.Common.{
  ℕ, false, List, [], ◌∷◌, ◌++◌, map, length, append_assoc, append-nil, Bytes, Option, some, ◌≡◌,
  refl, sym, ◌∙◌, ap,
}
use epistemic_framework.Common.Outcome.{ok}
use epistemic_framework.ChatFile.Message.{ChatMessage}
use epistemic_framework.ChatFile.Read.{chat_read}
use epistemic_framework.ChatFile.Send.{Sent}
use epistemic_framework.ChatFile.Render.{Chat, render, state_of, IsChat, append_message}
use epistemic_framework.ChatFile.Render.Read.{chat_read-render}
use epistemic_framework.ChatFile.Render.Refine.{
  HasRoom, IsPost, append_message-IsChat, chat_send-render,
}
use epistemic_framework.ChatFile.Lock.{Entry, send_entry, is_writing, System, Reach, run_sends}
use epistemic_framework.ChatFile.Lock.Serial.{lock_serializes}

abbrev pub message_of : Entry → ChatMessage
message_of e = record { handle = e.request.handle; content = e.request.message; timestamp = e.now }

abbrev pub append_all : Chat → List Entry → Chat
append_all c [] = c
append_all c (e ∷ es) = append_all (append_message c (message_of e) e.timestamp) es

-- Each send fits when its turn comes.
abbrev pub AllFit : Chat → List Entry → Type 0
AllFit c [] = Unit {0}
AllFit c (e ∷ es) =
    IsPost (message_of e) e.timestamp
    × HasRoom c (message_of e)
    × AllFit (append_message c (message_of e) e.timestamp) es

pub send_entry-render :
    (c : Chat) (e : Entry)
    → IsChat c
    → IsPost (message_of e) e.timestamp
    → HasRoom c (message_of e)
    → (sent : Sent) × (send_entry (some (render c)) e ≡ ok sent)
      × (sent.file ≡ render (append_message c (message_of e) e.timestamp))
send_entry-render c e chat post room = (
  record {
    file = render (append_message c (message_of e) e.timestamp);
    encoded_line_count = length c.messages;
  },
  (unfold send_entry in (chat_send-render c (message_of e) e.timestamp chat post room).0),
  refl,
)

run_sends_cons :
    (file file' : Bytes) (e : Entry) (es : List Entry) (sent : Sent)
    → send_entry (some file) e ≡ ok sent
    → sent.file ≡ file'
    → run_sends (some file) (e ∷ es) ≡ run_sends (some file') es
run_sends_cons file file' e es sent first same =
    unfold run_sends in rw first (ap (λ (f : Bytes). run_sends (some f) es) same)

run_sends-render :
    (c : Chat) (es : List Entry)
    → IsChat c
    → AllFit c es
    → (run_sends (some (render c)) es ≡ ok (some (render (append_all c es))))
      × IsChat (append_all c es)
run_sends-render c [] chat fits = (unfold run_sends in refl, chat)
run_sends-render c (e ∷ es) chat (post, room, fits) =
    let c' = append_message c (message_of e) e.timestamp in
    let (sent, first, same) = send_entry-render c e chat post room in
    let chat' = append_message-IsChat c (message_of e) e.timestamp chat post room in
    let (later, chat'') = run_sends-render c' es chat' fits in
    (run_sends_cons (render c) (render c') e es sent first same ∙ later, chat'')

messages-append_all :
    (c : Chat) (es : List Entry) → (append_all c es).messages ≡ c.messages ++ map message_of es
messages-append_all c [] = sym (append-nil c.messages)
messages-append_all c (e ∷ es) =
    messages-append_all (append_message c (message_of e) e.timestamp) es
    ∙ append_assoc c.messages (message_of e ∷ []) (map message_of es)

file_of_ok : (f g : Option Bytes) → ok f ≡ ok g → f ≡ g
file_of_ok f g h = cc

-- Sends by several processes on the file of a chat, however their steps are mixed, each within the limits of the
-- header and of the readers when its turn comes: as long as no write was broken off, whenever nobody is writing, a
-- read of the file gives the old messages and then those of all sends that were written to the end, each once and in their order,
-- and the file is that of a chat.
pub lock_keeps_messages :
    (c : Chat) {s : System} (r : Reach (some (render c)) s)
    → IsChat c
    → AllFit c s.shared.log
    → s.shared.torn ≡ false
    → ((i : ℕ) → is_writing (s.pc i) ≡ false)
    → (chat_read s.shared.file ≡ ok (state_of (append_all c s.shared.log)))
      × ((append_all c s.shared.log).messages ≡ c.messages ++ map message_of s.shared.log)
      × (s.shared.file ≡ some (render (append_all c s.shared.log)))
      × IsChat (append_all c s.shared.log)
lock_keeps_messages c {s} r chat fits whole quiet =
    let (rendered, chat') = run_sends-render c s.shared.log chat fits in
    let file : s.shared.file ≡ some (render (append_all c s.shared.log)) =
      file_of_ok _ _ (sym (lock_serializes r whole quiet) ∙ rendered) in
    (
      ap chat_read file ∙ chat_read-render (append_all c s.shared.log) chat',
      messages-append_all c s.shared.log,
      file,
      chat',
    )
