-- ===== src/ChatFile/Tests.antt =====
-- The theorems on the chat file at concrete inputs.
use epistemic_framework.Common.{
  ℕ, ◌≤◌, ◌<◌, true, false, List, [], ◌∷◌, length, lacks-Lacks, Bytes, codes, str_eq, some, ◌≡◌,
  ◌≢◌, refl, ◌⊎◌, arith,
}
use epistemic_framework.Common.Outcome.{ok, error}
use epistemic_framework.Common.Int.{pos}
use epistemic_framework.Common.Decimal.{print_ℤ}
use epistemic_framework.ChatFile.Length.{
  compute_file_length, IsSelfConsistent, compute_file_length_least,
}
use epistemic_framework.ChatFile.Participants.{
  Participant, bump, add_participant, parse_participants, format_participants, update_participants,
}
use epistemic_framework.ChatFile.Participants.RoundTrip.{parse_participants-format_participants}
use epistemic_framework.ChatFile.Participants.Update.{
  count_of, one_more, IsBelowMax, is_listed, update_participants_cases,
}
use epistemic_framework.ChatFile.Message.{ChatMessage, message_line, find_separator, parse_message}
use epistemic_framework.ChatFile.Message.RoundTrip.{IsSender, parse_message-message_line}
use epistemic_framework.ChatFile.Read.{chat_read}
use epistemic_framework.ChatFile.Read.Bounds.{OnOk, IsState, chat_read_bounds}
use epistemic_framework.ChatFile.Cursors.{Cursor, cursor_file, chat_cursor_read, chat_cursor_write}
use epistemic_framework.ChatFile.Cursors.Lines.{IsKey}
use epistemic_framework.ChatFile.Cursors.Store.{chat_cursor_read-chat_cursor_write}
use epistemic_framework.ChatFile.Poll.{PollsTo, files_of, chat_poll, chat_poll_cases}
use epistemic_framework.ChatFile.Send.{chat_create, chat_send}
use epistemic_framework.ChatFile.Render.{
  Chat, chat_length, render, state_of, IsMessage, IsEntry, IsChat, append_message,
}
use epistemic_framework.Common.Fgets.{one_line-IsOneLine}
use epistemic_framework.ChatFile.Render.Read.{chat_read-render}
use epistemic_framework.ChatFile.Render.Refine.{
  HasRoom, IsPost, append_message-IsChat, chat_send-render, new_chat, chat_create-render,
}

abbrev pub alice : Bytes
alice = codes "alice"

abbrev pub stamp : Bytes
stamp = codes "2026-02-01T10:00:00+0000"

abbrev alice_twice : Participant
alice_twice = record { handle = alice; count = pos 2 }

abbrev bob_once : Participant
bob_once = record { handle = codes "bob"; count = pos 1 }

abbrev pub hello : ChatMessage
hello = record { handle = alice; content = codes "hi: bob|x"; timestamp = pos 170 }

abbrev pub one_message : Chat
one_message = record {
  last_writer = codes "bob";
  last_write = stamp;
  participants = alice_twice ∷ bob_once ∷ [];
  messages = hello ∷ [];
}

alice-IsSender : IsSender alice
unfolding find_separator
alice-IsSender =
    (omega arith, omega arith, lacks-Lacks 0 alice refl, lacks-Lacks b'|' alice refl, refl)

hello-IsMessage : IsMessage hello
unfolding message_line print_ℤ
hello-IsMessage = (
  alice-IsSender,
  (170, refl, omega arith, omega arith),
  lacks-Lacks 0 (codes "hi: bob|x") refl,
  omega arith,
  omega arith,
)

alice-IsEntry : IsEntry alice_twice
alice-IsEntry = (
  ((refl, (refl, (refl, (refl, (refl, (refl, tt))))), omega arith), refl),
  one_line-IsOneLine alice refl,
)

bob-IsEntry : IsEntry bob_once
bob-IsEntry =
    (((refl, (refl, (refl, (refl, tt))), omega arith), refl), one_line-IsOneLine (codes "bob") refl)

pub one_message-IsChat : IsChat one_message
one_message-IsChat = (
  (one_line-IsOneLine (codes "bob") refl, omega arith),
  (one_line-IsOneLine stamp refl, omega arith),
  ((alice-IsEntry, (bob-IsEntry, tt)), omega arith),
  ((hello-IsMessage, tt), omega arith),
)

pub hello-IsPost : IsPost hello stamp
hello-IsPost = (
  hello-IsMessage,
  (refl, (refl, (refl, (refl, (refl, (refl, tt))))), omega arith),
  one_line-IsOneLine alice refl,
  (one_line-IsOneLine stamp refl, omega arith),
)

pub hello-HasRoom : HasRoom one_message hello
unfolding update_participants bump add_participant str_eq
hello-HasRoom =
    (omega arith, ((alice-IsEntry, omega arith), ((bob-IsEntry, omega arith), tt)), omega arith)

compute_file_length_least_example :
    IsSelfConsistent 4 (compute_file_length (codes "ab\nc"))
    × ((m : ℕ) → IsSelfConsistent 4 m → compute_file_length (codes "ab\nc") ≤ m)
compute_file_length_least_example = compute_file_length_least (codes "ab\nc")

parse_participants-format_participants_example :
    parse_participants 2 (format_participants (alice_twice ∷ bob_once ∷ []))
    ≡ alice_twice ∷ bob_once ∷ []
parse_participants-format_participants_example =
    parse_participants-format_participants 2 (alice_twice ∷ bob_once ∷ [])
      (alice-IsEntry.0, (bob-IsEntry.0, tt)) (omega arith)

abbrev both : List Participant
both = alice_twice ∷ bob_once ∷ []

alice_below : IsBelowMax (count_of alice both)
unfolding str_eq
alice_below = omega arith

update_participants_cases_example :
    (((2 < 2) ⊎ (is_listed (count_of alice both) ≡ true))
      × (count_of alice (update_participants both alice 2) ≡ one_more (count_of alice both))
      × ((other : Bytes)
          → other ≢ alice
          → count_of other (update_participants both alice 2) ≡ count_of other both))
    ⊎ ((2 ≤ 2)
        × (is_listed (count_of alice both) ≡ false)
        × (update_participants both alice 2 ≡ both))
update_participants_cases_example = update_participants_cases both alice 2 (omega arith) alice_below

parse_message-message_line_example :
    parse_message (message_line alice (pos 170) (codes "hi: bob|x")) ≡ ok (some hello)
parse_message-message_line_example =
    parse_message-message_line alice 170 (codes "hi: bob|x") alice-IsSender (omega arith)
      (omega arith) (lacks-Lacks 0 (codes "hi: bob|x") refl)

chat_read-render_example : chat_read (some (render one_message)) ≡ ok (state_of one_message)
chat_read-render_example = chat_read-render one_message one_message-IsChat

chat_send-render_example :
    (chat_send (some (render one_message)) alice (codes "hi: bob|x") (pos 170) stamp
      ≡ ok (record {
        file = render (append_message one_message hello stamp);
        encoded_line_count = 1;
      }))
    × (chat_read (some (render (append_message one_message hello stamp)))
        ≡ ok (state_of (append_message one_message hello stamp)))
    × (length (render (append_message one_message hello stamp))
        ≡ chat_length (append_message one_message hello stamp))
chat_send-render_example =
    chat_send-render one_message hello stamp one_message-IsChat hello-IsPost hello-HasRoom

chat_create-render_example :
    (chat_create false stamp ≡ ok (render (new_chat stamp)))
    × (chat_create true stamp ≡ error)
    × IsChat (new_chat stamp)
chat_create-render_example = chat_create-render stamp (one_line-IsOneLine stamp refl) (omega arith)

chat_read_bounds_example :
    OnOk IsState (chat_read (some (codes "=== nbs-chat ===\n---\nQUJD\n!!\n")))
chat_read_bounds_example = chat_read_bounds (codes "=== nbs-chat ===\n---\nQUJD\n!!\n")

abbrev two_cursors : List Cursor
two_cursors =
    record { handle = codes "bob"; index = pos 7 }
    ∷ record { handle = codes "eve"; index = pos 0 }
    ∷ []

bob-IsKey : IsKey (codes "bob")
bob-IsKey = (refl, (refl, (refl, (refl, tt))), one_line-IsOneLine (codes "bob") refl, omega arith)

eve-IsKey : IsKey (codes "eve")
eve-IsKey = (refl, (refl, (refl, (refl, tt))), one_line-IsOneLine (codes "eve") refl, omega arith)

chat_cursor_read-chat_cursor_write_example :
    (file : Bytes) × (chat_cursor_write (some (cursor_file two_cursors)) (codes "bob") (pos 12)
      ≡ ok file)
    × (chat_cursor_read (some file) (codes "bob") ≡ pos 12)
    × ((other : Bytes)
        → other ≢ codes "bob"
        → chat_cursor_read (some file) other
          ≡ chat_cursor_read (some (cursor_file two_cursors)) other)
chat_cursor_read-chat_cursor_write_example =
    chat_cursor_read-chat_cursor_write two_cursors (codes "bob") 12
      ((bob-IsKey, refl), ((eve-IsKey, refl), tt)) (omega arith) bob-IsKey refl

two_messages-IsChat : IsChat (append_message one_message hello stamp)
two_messages-IsChat =
    append_message-IsChat one_message hello stamp one_message-IsChat hello-IsPost hello-HasRoom

chat_poll_cases_example :
    PollsTo (codes "bob") 1 (one_message ∷ append_message one_message hello stamp ∷ []) (
      chat_poll
        (codes "bob")
        (some (render one_message))
        (files_of (one_message ∷ append_message one_message hello stamp ∷ [])))
chat_poll_cases_example =
    chat_poll_cases (codes "bob") one_message
      (one_message ∷ append_message one_message hello stamp ∷ []) one_message-IsChat
      (one_message-IsChat, (two_messages-IsChat, tt))

abbrev pub bob : Bytes
bob = codes "bob"

abbrev pub reply : ChatMessage
reply = record { handle = bob; content = codes "yes"; timestamp = pos 180 }

pub reply-IsPost : IsPost reply stamp
unfolding find_separator message_line print_ℤ
reply-IsPost = (
  (
    (omega arith, omega arith, lacks-Lacks 0 bob refl, lacks-Lacks b'|' bob refl, refl),
    (180, refl, omega arith, omega arith),
    lacks-Lacks 0 (codes "yes") refl,
    omega arith,
    omega arith,
  ),
  (refl, (refl, (refl, (refl, tt))), omega arith),
  one_line-IsOneLine bob refl,
  (one_line-IsOneLine stamp refl, omega arith),
)

pub reply-HasRoom : HasRoom one_message reply
unfolding update_participants bump add_participant str_eq
reply-HasRoom =
    (omega arith, ((alice-IsEntry, omega arith), ((bob-IsEntry, omega arith), tt)), omega arith)
