-- ===== src/ChatCli/Unread/Sent.antt =====
-- What a send does to the read cursor of the sender.
use epistemic_framework.Common.{
  ℕ, zero, suc, ◌+◌, ◌≤◌, ◌<◌, true, List, map, [], ◌∷◌, leb, length, length-append, drop, All,
  Bytes, Option, none, some, ◌≡◌, refl, arith,
}
use epistemic_framework.Common.Outcome.{ok}
use epistemic_framework.ChatFile.Participants.{max_participants}
use epistemic_framework.ChatFile.Message.{ChatMessage}
use epistemic_framework.ChatFile.Cursors.{Cursor, cursor_file}
use epistemic_framework.ChatFile.Cursors.Lines.{IsKey, IsCursor}
use epistemic_framework.ChatFile.Render.{Chat, render, IsChat, append_message}
use epistemic_framework.ChatFile.Render.Refine.{
  HasRoom, IsPost, append_message-IsChat, chat_send-render,
}
use epistemic_framework.Bridge.Events.{
  Publish, message_event, mention_event, bus_find_events_dir, max_mentions, bus_bridge_after_send,
}
use epistemic_framework.Bridge.Mentions.First.{bus_extract_mentions_first}
use epistemic_framework.ChatCli.Options.{max_path_len, resolve_path}
use epistemic_framework.ChatCli.Commands.{Machine, Done, exit_with, cmd_read, cmd_send}
use epistemic_framework.ChatCli.Unread.{
  unread, read_done, moved, read_unread, with_files, cursor_kept,
}

events_ok :
    (dir : Option Bytes) (handle message : Bytes)
    → (events : List Publish) × (bus_bridge_after_send dir handle message ≡ ok events)
unfolding bus_bridge_after_send
events_ok none handle message = ([], refl)
events_ok (some dir) handle message =
    let (ms, found, _, _, _, _) = bus_extract_mentions_first max_mentions message (omega arith) in
    (message_event dir handle message ∷ map (mention_event dir handle message) ms, rw found refl)

drop_all : (n : ℕ) (ms : List ChatMessage) → length ms ≤ n → drop n ms ≡ []
drop_all zero [] h = refl
drop_all zero (m ∷ ms) h = absurd (omega arith)
drop_all (suc n) [] h = refl
drop_all (suc n) (m ∷ ms) h = drop_all n ms (omega arith)

-- A send of a message on the file of a chat, within the limits of the header and of the readers, to a path that
-- fits and with a cursor file of fewer than 256 entries: it returns 0 and the message is in the chat. But it moves the read cursor of the sender behind
-- its own message: the next `read --unread` of the sender shows nothing, also if there were messages that
-- the sender had not read.
pub send_skips_unread :
    (w : Machine) (path abs : Bytes) (c : Chat) (m : ChatMessage) (cs : List Cursor)
    → resolve_path w.cwd path ≡ some abs
    → length abs + 8 < max_path_len
    → w.now ≡ m.timestamp
    → IsChat c
    → IsPost m w.timestamp
    → HasRoom c m
    → All IsCursor cs
    → length cs < max_participants
    → IsKey m.handle
    → w.files abs ≡ record { chat = some (render c); cursors = some (cursor_file cs) }
    → (d : Done) × (cmd_send w (path ∷ m.handle ∷ m.content ∷ []) ≡ ok d)
      × (d.code ≡ 0)
      × (d.files.chat ≡ some (render (append_message c m w.timestamp)))
      × ((file : Bytes) × (cmd_read (with_files w d.files) (path ∷ unread m.handle ∷ [])
            ≡ ok (read_done d.files.chat file [])))
send_skips_unread w path abs c m cs at short time chat post room cursors few key files =
    let c' = append_message c m w.timestamp in
    let chat' = append_message-IsChat c m w.timestamp chat post room in
    let sent = (chat_send-render c m w.timestamp chat post room).0 in
    let n = length c.messages in
    let (file, writes, moves) = moved abs (some (cursor_file cs)) m.handle n short in
    let (events, published) =
      events_ok (bus_find_events_dir w.directory max_path_len abs) m.handle m.content in
    let fits : leb (length abs + 6) max_path_len ≡ true = ground arith in
    let next = cursor_kept cs m.handle n file cursors few key (omega (arith, room.0)) writes in
    let size : length c'.messages ≡ n + 1 = length-append c.messages (m ∷ []) in
    (
      record (exit_with 0 (record { chat = some (render c'); cursors = some file })) {
        published = events;
      },
      (unfold cmd_send in rw (at, files, time, fits, sent, moves, published) refl),
      refl,
      refl,
      (let (file', _, shows) =
            read_unread (with_files w (record { chat = some (render c'); cursors = some file }))
              path abs m.handle c' (some file) (n + 1) at short refl chat' key next (omega arith)
              (omega arith) in
          let nothing : drop (n + 1) c'.messages ≡ [] =
            drop_all (n + 1) c'.messages (omega arith) in
          (file', rw nothing at shows)),
    )
