-- ===== src/ChatCli/Tests.antt =====
-- The commands of nbs-chat at concrete inputs.
use epistemic_framework.Common.{
  ◌≡◌, ◌↔◌, [], ◌∷◌, drop, span_until, Bytes, codes, has_prefix, none, some, refl, arith,
}
use epistemic_framework.Common.Outcome.{ok}
use epistemic_framework.Common.Int.{pos}
use epistemic_framework.Common.Fgets.{fgets_lines, c_string, chunks, c_strings, one_line-IsOneLine}
use epistemic_framework.ChatFile.Cursors.{cursor_file, find_cursor, cursor_line, chat_cursor_read}
use epistemic_framework.ChatFile.Cursors.Lines.{IsKey}
use epistemic_framework.Common.Fgets.{unlines}
use epistemic_framework.ChatFile.Render.{Chat, render, append_message}
use epistemic_framework.ChatFile.Render.Refine.{append_message-IsChat}
use epistemic_framework.ChatFile.Tests.{
  alice, stamp, hello, one_message, one_message-IsChat, hello-IsPost, hello-HasRoom,
}
use epistemic_framework.ChatCli.Options.{resolve_path}
use epistemic_framework.ChatCli.Window.{next_index}
use epistemic_framework.ChatCli.Search.{search_from, Contains, Passes, At, Listed}
use epistemic_framework.ChatCli.Search.Finds.{search_finds}
use epistemic_framework.ChatCli.Commands.{Machine, Done, cmd_read, cmd_send}
use epistemic_framework.ChatCli.Unread.{with_files, unread, read_done, unread_once}
use epistemic_framework.ChatCli.Unread.Sent.{send_skips_unread}

abbrev path : Bytes
path = codes "c.chat"

abbrev absolute : Bytes
absolute = codes "/home/c.chat"

abbrev machine : Machine
machine = record {
  cwd = some (codes "/home");
  files = λ _. record { chat = some (render one_message); cursors = some (cursor_file []) };
  directory = λ _. none;
  now = pos 170;
  timestamp = stamp;
  seconds = [];
  polled = none;
}

resolved : resolve_path (some (codes "/home")) path ≡ some absolute
unfolding resolve_path has_prefix
resolved = refl

alice-IsKey : IsKey alice
alice-IsKey =
    (refl, (refl, (refl, (refl, (refl, (refl, tt))))), one_line-IsOneLine alice refl, omega arith)

no_cursor : next_index (chat_cursor_read (some (cursor_file [])) alice) ≡ pos 0
unfolding chat_cursor_read find_cursor cursor_file cursor_line fgets_lines chunks c_strings unlines
    c_string span_until
no_cursor = refl

abbrev two_messages : Chat
two_messages = append_message one_message hello stamp

unread_once_example :
    (file : Bytes) × (cmd_read machine (path ∷ unread alice ∷ [])
      ≡ ok (read_done (some (render one_message)) file (drop 0 one_message.messages)))
    × ((file' : Bytes) × (cmd_read
            (with_files machine (record { chat = some (render two_messages); cursors = some file }))
            (path ∷ unread alice ∷ [])
          ≡ ok (read_done (some (render two_messages)) file' (hello ∷ []))))
unread_once_example =
    unread_once machine path absolute alice one_message two_messages (hello ∷ []) [] 0 resolved
      (omega arith) one_message-IsChat
      (append_message-IsChat one_message hello stamp one_message-IsChat hello-IsPost hello-HasRoom)
      refl (omega arith) tt (omega arith) alice-IsKey no_cursor (omega arith) refl

send_skips_unread_example :
    (d : Done) × (cmd_send machine (path ∷ alice ∷ hello.content ∷ []) ≡ ok d)
    × (d.code ≡ 0)
    × (d.files.chat ≡ some (render two_messages))
    × ((file : Bytes) × (cmd_read (with_files machine d.files) (path ∷ unread alice ∷ [])
          ≡ ok (read_done d.files.chat file [])))
send_skips_unread_example =
    send_skips_unread machine path absolute one_message hello [] resolved (omega arith) refl
      one_message-IsChat hello-IsPost hello-HasRoom tt (omega arith) alice-IsKey refl

search_finds_example :
    Listed 1 hello (search_from (codes "BOB") (some alice) 0 (hello ∷ hello ∷ [])) ↔ (
      At 1 hello (hello ∷ hello ∷ [])
      × Passes (some alice) hello
      × Contains hello.content (codes "BOB"))
search_finds_example = search_finds (codes "BOB") (some alice) 1 hello (hello ∷ hello ∷ [])
