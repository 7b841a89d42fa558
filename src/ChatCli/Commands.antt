-- ===== src/ChatCli/Commands.antt =====
-- The commands, from the arguments to the exit code.
use epistemic_framework.Common.{
  ℕ, ◌+◌, ◌-◌, Bool, true, false, List, [], ◌∷◌, ltb, leb, if◌then◌else◌, length, take, drop, Bytes,
  codes, str_eq, Option, none, some,
}
use epistemic_framework.Common.Outcome.{Outcome, ok, error, abort, ◌>>=◌, ◌>>◌, assert}
use epistemic_framework.Common.Int.{ℤ, pos}
use epistemic_framework.ChatFile.Participants.{Participant}
use epistemic_framework.ChatFile.Message.{ChatMessage}
use epistemic_framework.ChatFile.Read.{chat_read}
use epistemic_framework.ChatFile.Send.{Sent, chat_create, chat_send}
use epistemic_framework.ChatFile.Cursors.{chat_cursor_write}
use epistemic_framework.ChatFile.Poll.{Polled, new_message, timed_out, chat_poll}
use epistemic_framework.Bridge.Events.{Publish, bus_find_events_dir, bus_bridge_after_send}
use epistemic_framework.ChatCli.Options.{
  max_path_len, resolve_path, read_options, no_options, timeout_option, handle_option,
}
use epistemic_framework.ChatCli.Window.{read_start}
use epistemic_framework.ChatCli.Search.{search_from}

-- A chat and its file of read cursors.
pub record Files : Type 0 where
  pub chat : Option Bytes
  pub cursors : Option Bytes

-- What a command finds: the working directory, the files at a path, the directories that are there, the
-- time, and what stands in the chat at each second of a poll, for as many seconds as it can last, and behind it.
pub record Machine : Type 0 where
  pub cwd : Option Bytes
  pub files : Bytes → Files
  pub directory : Bytes → Option Bytes
  pub now : ℤ
  pub timestamp : Bytes
  pub seconds : List (Option Bytes)
  pub polled : Option Bytes

-- The exit code, what is printed (messages, numbered matches, participants), the files at the path, and the events.
pub record Done : Type 0 where
  pub code : ℕ
  pub shown : List ChatMessage
  pub matches : List (ℕ × ChatMessage)
  pub listed : List Participant
  pub files : Files
  pub published : List Publish

abbrev pub no_files : Files
no_files = record { chat = none; cursors = none }

abbrev pub exit_with : ℕ → Files → Done
exit_with code files = record {
  code = code;
  shown = [];
  matches = [];
  listed = [];
  files = files;
  published = [];
}

abbrev or_invalid {ℓ} : {A : Type ℓ} → Files → Option A → (A → Outcome Done) → Outcome Done
or_invalid files none go = ok (exit_with 4 files)
or_invalid files (some a) go = go a

-- A result of -1 ends the command with an exit code.
abbrev or_exit {ℓ} : {A : Type ℓ} → ℕ → Files → Outcome A → (A → Outcome Done) → Outcome Done
or_exit code files (ok a) go = go a
or_exit code files error go = ok (exit_with code files)
or_exit code files abort go = abort

-- The new cursor file. A path that is too long for the lock or the cursor file aborts.
unfoldable pub move_cursor : Bytes → Option Bytes → Bytes → ℕ → Outcome (Option Bytes)
move_cursor path cursors handle index = do
  assert (ltb (length path + 8) max_path_len)
  file ← chat_cursor_write cursors handle (pos index)
  ok (some file)

abbrev after_send : Machine → Bytes → Files → Bytes → Bytes → Sent → Outcome Done
after_send w path files handle message sent = do
  cursors ← move_cursor path files.cursors handle sent.encoded_line_count
  events ← bus_bridge_after_send (bus_find_events_dir w.directory max_path_len path) handle message
  ok (record {
    code = 0;
    shown = [];
    matches = [];
    listed = [];
    files = record { chat = some sent.file; cursors = cursors };
    published = events;
  })

unfoldable pub cmd_create : Machine → List Bytes → Outcome Done
cmd_create w [] = ok (exit_with 4 no_files)
cmd_create w (path ∷ _) = or_invalid no_files (resolve_path w.cwd path) λ abs.
    let files = w.files abs in
    or_exit 1 files (chat_create (is_there files.chat) w.timestamp)
      λ file. ok (exit_with 0 (record files { chat = some file }))
  where
    is_there : Option Bytes → Bool
    is_there none = false
    is_there (some file) = true

unfoldable pub cmd_send : Machine → List Bytes → Outcome Done
cmd_send w (path ∷ handle ∷ message ∷ _) = or_invalid no_files (resolve_path w.cwd path) λ abs.
    let files = w.files abs in
    assert (leb (length abs + 6) max_path_len)
    >> or_exit 1 files (chat_send files.chat handle message w.now w.timestamp)
        λ sent. after_send w abs files handle message sent
cmd_send w _ = ok (exit_with 4 no_files)

-- The name of the cursor file fits its buffer.
abbrev pub check_cursor_path : Bytes → Option Bytes → Outcome (Unit {0})
check_cursor_path path none = ok tt
check_cursor_path path (some handle) = assert (ltb (length path + 8) max_path_len)

-- The read cursor goes to the last message.
abbrev advance : Bytes → Option Bytes → Option Bytes → ℕ → Outcome (Option Bytes)
advance path none cursors end = ok cursors
advance path (some handle) cursors end =
    if ltb 0 end then move_cursor path cursors handle (end - 1) else ok cursors

unfoldable pub cmd_read : Machine → List Bytes → Outcome Done
cmd_read w [] = ok (exit_with 4 no_files)
cmd_read w (path ∷ args) = or_invalid no_files (resolve_path w.cwd path) λ abs.
    let files = w.files abs in
    or_invalid files (read_options args no_options) λ o.
      or_exit 2 files (chat_read files.chat) λ state. (do
        check_cursor_path abs o.unread_handle
        start ← read_start o files.cursors state.messages
        cursors ← advance abs o.unread_handle files.cursors (length state.messages)
        ok (record (exit_with 0 (record files { cursors = cursors })) {
          shown = drop start state.messages;
        }))

-- The last message of someone else.
abbrev last_other : Bytes → List ChatMessage → List ChatMessage
last_other handle [] = []
last_other handle (m ∷ ms) = or_this (last_other handle ms)
  where
    or_this : List ChatMessage → List ChatMessage
    or_this [] = if str_eq m.handle handle then [] else m ∷ []
    or_this (x ∷ xs) = x ∷ xs

unfoldable pub cmd_poll : Machine → List Bytes → Outcome Done
cmd_poll w (path ∷ handle ∷ args) = or_invalid no_files (resolve_path w.cwd path) λ abs.
    let files = w.files abs in
    or_invalid files (timeout_option args 10) λ timeout.
      or_exit 2 files (chat_poll handle files.chat (take timeout w.seconds))
        λ result. after result files
  where
    after : Polled → Files → Outcome Done
    after timed_out files = ok (exit_with 3 files)
    after new_message files =
        or_exit 1 files (chat_read w.polled)
          λ state. ok (record (exit_with 0 files) { shown = last_other handle state.messages })
cmd_poll w _ = ok (exit_with 4 no_files)

unfoldable pub cmd_participants : Machine → List Bytes → Outcome Done
cmd_participants w [] = ok (exit_with 4 no_files)
cmd_participants w (path ∷ _) = or_invalid no_files (resolve_path w.cwd path) λ abs.
    let files = w.files abs in
    or_exit 2 files (chat_read files.chat)
      λ state. ok (record (exit_with 0 files) { listed = state.participants })

unfoldable pub cmd_search : Machine → List Bytes → Outcome Done
cmd_search w (path ∷ pattern ∷ args) = or_invalid no_files (resolve_path w.cwd path) λ abs.
    let files = w.files abs in
    or_exit 2 files (chat_read files.chat) λ state. ok (record (exit_with 0 files) {
      matches = search_from pattern (handle_option args none) 0 state.messages;
    })
cmd_search w _ = ok (exit_with 4 no_files)

abbrev check_code : Done → Outcome Done
check_code d = assert (leb d.code 4) >> ok d

-- The arguments behind the name of the program.
unfoldable pub main : Machine → List Bytes → Outcome Done
main w [] = ok (exit_with 4 no_files)
main w (cmd ∷ args) =
    if str_eq cmd (codes "create")
    then (cmd_create w args >>= check_code)
    else if str_eq cmd (codes "send")
    then (cmd_send w args >>= check_code)
    else if str_eq cmd (codes "read")
    then (cmd_read w args >>= check_code)
    else if str_eq cmd (codes "poll")
    then (cmd_poll w args >>= check_code)
    else if str_eq cmd (codes "search")
    then (cmd_search w args >>= check_code)
    else if str_eq cmd (codes "participants")
    then (cmd_participants w args >>= check_code)
    else if str_eq cmd (codes "help")
    then ok (exit_with 0 no_files)
    else ok (exit_with 4 no_files)
