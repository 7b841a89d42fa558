-- ===== src/Terminal/Display.antt =====
-- `poll_and_display` and `send_and_display` of terminal.c: which messages are shown, and `g_msg_count`.
pub mod Shown
use epistemic_framework.Common.{
  ℕ, zero, suc, ◌+◌, ◌≤◌, ◌<◌, Bool, true, false, not, ◌&&◌, ◌||◌, List, [], ◌∷◌, ◌++◌,
  append_assoc, append-nil, ltb, leb, if◌then◌else◌, length, length-append, drop,
  drop-length-append, All, Bytes, str_eq, str_eq_iff, str_eq_refl, Option, none, some, ◌≡◌, ◌≢◌,
  refl, sym, ◌∙◌, ap, arith, inl, inr, Bool-cases,
}
use epistemic_framework.Common.Outcome.{Outcome, ok, error, abort, ◌>>=◌}
use epistemic_framework.Common.Int.{ℤ}
use epistemic_framework.ChatFile.Message.{ChatMessage}
use epistemic_framework.ChatFile.Read.{ChatState, chat_read}
use epistemic_framework.ChatFile.Poll.{from_other}
use epistemic_framework.ChatFile.Send.{Sent, chat_send}
use epistemic_framework.ChatFile.Render.{Chat, render, IsChat}
use epistemic_framework.ChatFile.Render.Read.{chat_read-render}

-- `g_msg_count`, and the messages that a poll has shown.
pub record Polled : Type 0 where
  pub msg_count : ℕ
  pub shown : List ChatMessage

-- The loop that shows the messages of others.
unfoldable pub others : Bytes → List ChatMessage → List ChatMessage
others handle [] = []
others handle (m ∷ ms) =
    let rest = others handle ms in if str_eq m.handle handle then rest else m ∷ rest

unfoldable pub show_new : Bytes → ℕ → List ChatMessage → Polled
show_new handle count messages =
    if leb (length messages) count
    then record { msg_count = count; shown = [] }
    else if not (from_other handle (drop count messages))
    then record { msg_count = length messages; shown = [] }
    else record { msg_count = length messages; shown = others handle (drop count messages) }

-- A file that cannot be read changes nothing.
abbrev pub after_read : Bytes → ℕ → Outcome ChatState → Outcome Polled
after_read handle count (ok state) = ok (show_new handle count state.messages)
after_read handle count error = ok (record { msg_count = count; shown = [] })
after_read handle count abort = abort

unfoldable pub poll_and_display : Bytes → ℕ → Option Bytes → Outcome Polled
poll_and_display handle count file = after_read handle count (chat_read file)

-- The count and the file after a send.
abbrev pub after_send : ℕ → Option Bytes → Outcome Sent → Outcome (ℕ × Option Bytes)
after_send count file (ok sent) = ok (count + 1, some sent.file)
after_send count file error = ok (count, file)
after_send count file abort = abort

-- The line is not empty: every caller sees to it, so the assertion of that is left out, like the events of the bus.
unfoldable pub send_and_display :
    Bytes → ℕ → Option Bytes → Bytes → ℤ → Bytes → Outcome (ℕ × Option Bytes)
send_and_display handle count file text now timestamp =
    after_send count file (chat_send file handle text now timestamp)

-- Polls one after the other, each on what the file is then.
unfoldable pub polls : Bytes → ℕ → List (Option Bytes) → Outcome Polled
polls handle count [] = ok (record { msg_count = count; shown = [] })
polls handle count (file ∷ files) = poll_and_display handle count file >>= λ p.
    polls handle p.msg_count files >>= λ later. ok (record later { shown = p.shown ++ later.shown })
