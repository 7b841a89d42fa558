-- ===== src/ChatCli/Window.antt =====
-- Which messages `cmd_read` shows: from `start` to the end, which is the number of messages.
use epistemic_framework.Common.{
  ℕ, zero, suc, ◌+◌, ◌-◌, ◌^◌, Bool, ◌&&◌, List, [], ◌∷◌, ltb, leb, ◌==◌, if◌then◌else◌, length,
  Bytes, str_eq, Option, none, some,
}
use epistemic_framework.Common.Outcome.{Outcome, ok, abort, ◌>>◌, assert}
use epistemic_framework.Common.Int.{ℤ, pos, negsuc}
use epistemic_framework.ChatFile.Message.{ChatMessage}
use epistemic_framework.ChatFile.Cursors.{chat_cursor_read}
use epistemic_framework.ChatCli.Options.{ReadOptions}

-- `cursor + 1` on an int.
abbrev pub next_index : ℤ → ℤ
next_index (pos n) = if n == 2 ^ 31 - 1 then negsuc (2 ^ 31 - 1) else pos (n + 1)
next_index (negsuc zero) = pos 0
next_index (negsuc (suc n)) = negsuc n

abbrev clamp : ℤ → ℕ → ℤ
clamp (pos start) end = if ltb end start then pos end else pos start
clamp (negsuc n) end = negsuc n

-- Behind the read cursor.
unfoldable pub unread_start : ℤ → ℕ → ℤ
unread_start cursor end = clamp (next_index cursor) end

-- Behind the last message of `handle`; `i` messages were looked at, and `start` is what they gave.
unfoldable pub since_start : Bytes → ℕ → ℕ → List ChatMessage → ℕ
since_start handle i start [] = start
since_start handle i start (m ∷ ms) =
    since_start handle (i + 1) (if str_eq m.handle handle then i + 1 else start) ms

abbrev pub first_start : Option Bytes → Option Bytes → Option Bytes → List ChatMessage → ℤ
first_start (some handle) since cursors messages =
    unread_start (chat_cursor_read cursors handle) (length messages)
first_start none (some handle) cursors messages = pos (since_start handle 0 0 messages)
first_start none none cursors messages = pos 0

-- `end - start > last_n` on ints.
abbrev exceeds : ℤ → ℕ → ℕ → Bool
exceeds (pos start) end last_n = ltb last_n (end - start)
exceeds (negsuc n) end last_n = ltb last_n (end + n + 1) && ltb (end + n + 1) (2 ^ 31)

-- `end - last_n`
abbrev minus_int : ℕ → ℕ → ℤ
minus_int end last_n = if leb last_n end then pos (end - last_n) else negsuc (last_n - end - 1)

abbrev pub last_start : Option ℕ → ℕ → ℤ → ℤ
last_start none end start = start
last_start (some last_n) end start =
    if exceeds start end last_n then minus_int end last_n else start

-- The assertion in front of the loop that prints.
abbrev pub check_start : ℤ → ℕ → Outcome ℕ
check_start (pos start) end = assert (leb start end) >> ok start
check_start (negsuc n) end = abort

unfoldable pub read_start : ReadOptions → Option Bytes → List ChatMessage → Outcome ℕ
read_start o cursors messages =
    let end = length messages in
    check_start
      (last_start o.last_n end (first_start o.unread_handle o.since_handle cursors messages)) end
