-- ===== src/ChatFile/Lock/Tests.antt =====
-- The theorems on the lock at concrete runs.
use epistemic_framework.Common.{ℕ, false, [], ◌∷◌, true, some, ◌≡◌, ◌≢◌, refl, Bytes, Option}
use epistemic_framework.Common.Outcome.{ok}
use epistemic_framework.ChatFile.Read.{empty_state, chat_read}
use epistemic_framework.ChatFile.Send.{Sent}
use epistemic_framework.ChatFile.Render.{render, state_of, IsChat, append_message}
use epistemic_framework.ChatFile.Render.Refine.{chat_send-render}
use epistemic_framework.ChatFile.Tests.{
  stamp, hello, one_message, one_message-IsChat, hello-IsPost, hello-HasRoom,
}
use epistemic_framework.ChatFile.Lock.{
  Entry, send_entry, unlocked, is_inside, is_writing, Step, System, Reach, run_sends,
}
use epistemic_framework.ChatFile.Lock.Serial.{lock_excludes, lock_serializes}
use epistemic_framework.ChatFile.Lock.Chats.{append_all, lock_keeps_messages}
use epistemic_framework.ChatFile.Lock.Runs.{
  opened, open_alone, opened_at, crash_at, sent_once, send_alone, sent_once_quiet,
  crash_empties_chat,
}

abbrev hello_entry : Entry
hello_entry = record {
  request = record { handle = hello.handle; message = hello.content };
  now = hello.timestamp;
  timestamp = stamp;
}

abbrev old_file : Option Bytes
old_file = some (render one_message)

abbrev hello_sent : Sent
hello_sent = record {
  file = render (append_message one_message hello stamp);
  encoded_line_count = 1;
}

hello_sends : send_entry old_file hello_entry ≡ ok hello_sent
hello_sends =
    unfold send_entry in
    (chat_send-render one_message hello stamp one_message-IsChat hello-IsPost hello-HasRoom).0

abbrev after : System
after = sent_once hello_entry old_file hello_sent

after-Reach : Reach old_file after
after-Reach = send_alone old_file hello_entry hello_sent hello_sends

after_quiet : (i : ℕ) → is_writing (after.pc i) ≡ false
after_quiet = sent_once_quiet old_file hello_entry hello_sent

lock_excludes_example :
    ((i j : ℕ) → is_inside (after.pc i) ≡ true → is_inside (after.pc j) ≡ true → i ≡ j)
    × ((i : ℕ) → after.pc i ≡ unlocked → after.shared.holder ≢ some i)
lock_excludes_example = lock_excludes after-Reach

lock_serializes_example : run_sends old_file (hello_entry ∷ []) ≡ ok after.shared.file
lock_serializes_example = lock_serializes after-Reach refl after_quiet

lock_keeps_messages_example :
    (chat_read after.shared.file ≡ ok (state_of (append_all one_message (hello_entry ∷ []))))
    × ((append_all one_message (hello_entry ∷ [])).messages ≡ hello ∷ hello ∷ [])
    × (after.shared.file ≡ some (render (append_all one_message (hello_entry ∷ []))))
    × IsChat (append_all one_message (hello_entry ∷ []))
lock_keeps_messages_example =
    lock_keeps_messages one_message after-Reach one_message-IsChat (hello-IsPost, hello-HasRoom, tt)
      refl after_quiet

abbrev opened_once : System
opened_once = opened hello_entry old_file hello_sent

crash_empties_chat_example :
    Step opened_once (crash_at 0 opened_once)
    × (run_sends old_file [] ≡ ok old_file)
    × (send_entry old_file hello_entry ≡ ok hello_sent)
    × ((crash_at 0 opened_once).shared.file ≡ some [])
    × (chat_read (crash_at 0 opened_once).shared.file ≡ ok empty_state)
crash_empties_chat_example =
    crash_empties_chat (open_alone old_file hello_entry hello_sent hello_sends) 0 hello_entry
      old_file hello_sent (opened_at old_file hello_entry hello_sent) refl
