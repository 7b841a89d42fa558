-- ===== src/ChatCli/Unread.antt =====
-- `read --unread` with the cursor file, and what a send does to it.
pub mod Sent
use epistemic_framework.Common.{
  ℕ, zero, suc, ◌+◌, ◌-◌, ◌^◌, ◌≤◌, ◌<◌, true, false, List, map, [], ◌∷◌, ◌++◌, ltb, leb, ◌==◌,
  length, length-append, drop, drop-length-append, All, Bytes, codes, has_prefix, Option, none,
  some, ◌≡◌, refl, sym, ◌∙◌, ap, arith,
}
use epistemic_framework.Common.Outcome.{ok}
use epistemic_framework.Common.Int.{ℤ, pos}
use epistemic_framework.ChatFile.Participants.{max_participants}
use epistemic_framework.ChatFile.Message.{ChatMessage}
use epistemic_framework.ChatFile.Cursors.{
  Cursor, cursor_file, load_cursors, add_cursor, old_lines, chat_cursor_read, chat_cursor_write,
}
use epistemic_framework.ChatFile.Cursors.Lines.{IsKey, IsCursor}
use epistemic_framework.ChatFile.Cursors.Store.{chat_cursor_read-chat_cursor_write}
use epistemic_framework.ChatFile.Render.{Chat, render, IsChat, append_message}
use epistemic_framework.ChatFile.Render.Read.{chat_read-render}
use epistemic_framework.ChatFile.Render.Refine.{
  HasRoom, IsPost, append_message-IsChat, chat_send-render,
}
use epistemic_framework.Bridge.Events.{
  Publish, message_event, mention_event, bus_find_events_dir, max_mentions, bus_bridge_after_send,
}
use epistemic_framework.Bridge.Mentions.First.{bus_extract_mentions_first}
use epistemic_framework.ChatCli.Options.{
  max_path_len, resolve_path, no_options, non_empty_handle, read_option, read_options,
}
use epistemic_framework.ChatCli.Window.{next_index, unread_start, read_start}
use epistemic_framework.ChatCli.Commands.{
  Files, Machine, Done, exit_with, move_cursor, cmd_read, cmd_send,
}

abbrev pub unread : Bytes → Bytes
unread handle = codes "--unread=" ++ handle

named : (handle : Bytes) → IsKey handle → non_empty_handle handle ≡ some handle
named [] key = absurd key
named (c ∷ s) key = refl

unread_options :
    (handle : Bytes)
    → IsKey handle
    → read_options (unread handle ∷ []) no_options
      ≡ some (record { last_n = none; since_handle = none; unread_handle = some handle })
unfolding read_options read_option has_prefix
unread_options handle key = rw (named handle key) refl

-- A read shows the messages from `k` on.
abbrev pub read_done : Option Bytes → Bytes → List ChatMessage → Done
read_done chat cursors shown = record {
  code = 0;
  shown = shown;
  matches = [];
  listed = [];
  files = record { chat = chat; cursors = some cursors };
  published = [];
}

start_at :
    (cursor : ℤ) (k end : ℕ) → next_index cursor ≡ pos k → k ≤ end → unread_start cursor end ≡ pos k
unfolding unread_start
start_at cursor k end e le = let inside : ltb end k ≡ false = ground arith in rw (e, inside) refl

read_start_at :
    (handle : Bytes) (cursors : Option Bytes) (ms : List ChatMessage) (k : ℕ)
    → next_index (chat_cursor_read cursors handle) ≡ pos k
    → k ≤ length ms
    → read_start
        (record { last_n = none; since_handle = none; unread_handle = some handle })
        cursors
        ms
      ≡ ok k
unfolding read_start
read_start_at handle cursors ms k e le =
    let inside : leb k (length ms) ≡ true = ground arith in
    rw (start_at (chat_cursor_read cursors handle) k (length ms) e le, inside) refl

written :
    (cursors : Option Bytes) (handle : Bytes) (n : ℕ)
    → (file : Bytes) × (chat_cursor_write cursors handle (pos n) ≡ ok file)
unfolding chat_cursor_write
written cursors handle n =
    let positive : leb 0 n ≡ true = ground arith in
    (
      cursor_file (
          add_cursor handle (pos n)
            (load_cursors handle (pos n) (old_lines cursors) max_participants)),
      rw positive refl,
    )

pub moved :
    (path : Bytes) (cursors : Option Bytes) (handle : Bytes) (n : ℕ)
    → length path + 8 < max_path_len
    → (file : Bytes) × (chat_cursor_write cursors handle (pos n) ≡ ok file)
      × (move_cursor path cursors handle n ≡ ok (some file))
moved path cursors handle n short =
    let fits : ltb (length path + 8) max_path_len ≡ true = ground arith in
    let (file, writes) = written cursors handle n in
    (file, writes, unfold move_cursor in rw (fits, writes) refl)

pub read_unread :
    (w : Machine) (path abs handle : Bytes) (c : Chat) (cursors : Option Bytes) (k : ℕ)
    → resolve_path w.cwd path ≡ some abs
    → length abs + 8 < max_path_len
    → w.files abs ≡ record { chat = some (render c); cursors = cursors }
    → IsChat c
    → IsKey handle
    → next_index (chat_cursor_read cursors handle) ≡ pos k
    → k ≤ length c.messages
    → 0 < length c.messages
    → (file : Bytes) × (chat_cursor_write cursors handle (pos (length c.messages - 1)) ≡ ok file)
      × (cmd_read w (path ∷ unread handle ∷ [])
          ≡ ok (read_done (some (render c)) file (drop k c.messages)))
read_unread w path abs handle c cursors k at short files chat key e le some_message =
    let (file, writes, moves) = moved abs cursors handle (length c.messages - 1) short in
    let fits : ltb (length abs + 8) max_path_len ≡ true = ground arith in
    let any : ltb 0 (length c.messages) ≡ true = ground arith in
    let start = read_start_at handle cursors c.messages k e le in
    (
      file,
      writes,
      (unfold cmd_read in
          rw
            (at, files, unread_options handle key, chat_read-render c chat, fits, start, any, moves)
            refl),
    )

-- The machine later, with other files.
abbrev pub with_files : Machine → Files → Machine
with_files w files = record w { files = λ path. files }

same_file : (f g : Bytes) → ok f ≡ ok g → f ≡ g
same_file f g e = cc

next_of : (n : ℕ) → n < 10000 → next_index (pos n) ≡ pos (n + 1)
next_of n small = let inside : (n == 2 ^ 31 - 1) ≡ false = ground arith in rw inside refl

-- The cursor that was written is the one that is read.
pub cursor_kept :
    (cs : List Cursor) (handle : Bytes) (n : ℕ) (file : Bytes)
    → All IsCursor cs
    → length cs < max_participants
    → IsKey handle
    → n < 10000
    → chat_cursor_write (some (cursor_file cs)) handle (pos n) ≡ ok file
    → next_index (chat_cursor_read (some file) handle) ≡ pos (n + 1)
cursor_kept cs handle n file cursors room key small writes =
    let (file', writes', reads, _) =
      chat_cursor_read-chat_cursor_write cs handle n cursors room key (ground arith) in
    let same : file ≡ file' = same_file file file' (sym writes ∙ writes') in
    rw (same, reads) (next_of n small)

-- In a directory where the path of the chat and of its cursor file fit, with a cursor file of fewer than 256
-- entries whose entry for the handle is a message of the chat or -1: `read --unread` of a chat with messages shows those behind the read cursor,
-- and the next one, of the chat with more messages behind the old ones, shows exactly these: each message is shown once.
pub unread_once :
    (w : Machine) (path abs handle : Bytes) (c c' : Chat) (more : List ChatMessage)
    (cs : List Cursor) (k : ℕ)
    → resolve_path w.cwd path ≡ some abs
    → length abs + 8 < max_path_len
    → IsChat c
    → IsChat c'
    → c'.messages ≡ c.messages ++ more
    → 0 < length c.messages
    → All IsCursor cs
    → length cs < max_participants
    → IsKey handle
    → next_index (chat_cursor_read (some (cursor_file cs)) handle) ≡ pos k
    → k ≤ length c.messages
    → w.files abs ≡ record { chat = some (render c); cursors = some (cursor_file cs) }
    → (file : Bytes) × (cmd_read w (path ∷ unread handle ∷ [])
        ≡ ok (read_done (some (render c)) file (drop k c.messages)))
      × ((file' : Bytes) × (cmd_read
              (with_files w (record { chat = some (render c'); cursors = some file }))
              (path ∷ unread handle ∷ [])
            ≡ ok (read_done (some (render c')) file' more)))
unread_once w path abs handle c c' more cs k at short chat chat' grows some_message cursors room key
      e le files =
    let (file, writes, shows) =
      read_unread w path abs handle c (some (cursor_file cs)) k at short files chat key e le
        some_message in
    let (_, _, _, (_, few)) = chat in
    let n = length c.messages - 1 in
    let whole : n + 1 ≡ length c.messages = omega arith in
    let next : next_index (chat_cursor_read (some file) handle) ≡ pos (length c.messages) =
      cursor_kept cs handle n file cursors room key (omega arith) writes ∙ ap pos whole in
    let size : length c'.messages ≡ length c.messages + length more =
      ap length grows ∙ length-append c.messages more in
    (
      file,
      shows,
      (let (file', _, shows') =
            read_unread (with_files w (record { chat = some (render c'); cursors = some file }))
              path abs handle c' (some file) (length c.messages) at short refl chat' key next
              (omega arith) (omega arith) in
          let rest : drop (length c.messages) c'.messages ≡ more =
            ap (drop (length c.messages)) grows ∙ drop-length-append c.messages more in
          (file', rw rest at shows')),
    )
