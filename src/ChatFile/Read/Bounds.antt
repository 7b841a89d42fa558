-- ===== src/ChatFile/Read/Bounds.antt =====
-- What `chat_read` guarantees of its result for any file.
use epistemic_framework.Common.{
  ℕ, zero, suc, ◌-◌, ◌≤◌, ◌<◌, Bool, true, false, ◌&&◌, ◌||◌, List, [], ◌∷◌, ltb, leb, ◌==◌,
  if◌then◌else◌, length, length-append, length-take, take, drop, All, All-append, Bytes, codes,
  str_eq, has_prefix, span_until, Option, none, some, ◌≡◌, arith, inl, inr, Bool-cases, if_holds,
}
use epistemic_framework.Common.Outcome.{Outcome, ok, error, abort, ◌>>=◌, ◌>>◌, assert}
use epistemic_framework.Common.Int.{ℤ}
use epistemic_framework.Base64.{size_max, base64_decode, base64_decoded_size}
use epistemic_framework.ChatFile.Participants.{
  Participant, max_handle_len, max_participants, skip_separators, ends_handle, parse_count,
  parse_entry, parse_participants,
}
use epistemic_framework.ChatFile.Message.{
  ChatMessage, find_separator, parse_prefix, strlen, store_message, parse_at, parse_message,
}
use epistemic_framework.ChatFile.Lines.{read_lines}
use epistemic_framework.ChatFile.Read.{
  max_message_len, max_messages, last_write_size, ChatState, Reader, header_mark, header_end,
  parse_header, add_message, store_decoded, read_message, with_state, read_step, read_loop, start,
  chat_read,
}

abbrev pub IsShort : Bytes → Type 0
IsShort handle = (1 ≤ length handle) × (length handle < max_handle_len)

-- A list of participants that an array of `slots` holds.
abbrev pub FitsArray : ℕ → List Participant → Type 0
FitsArray slots ps = All (λ p. IsShort p.handle) ps × (length ps ≤ slots)

parse_entry-FitsArray :
    (more : Bytes → List Participant) (slots : ℕ) (s : Bytes)
    → ((t : Bytes) → FitsArray slots (more t))
    → FitsArray (suc slots) (parse_entry more s)
unfolding parse_entry
parse_entry-FitsArray more slots [] h = (tt, omega arith)
parse_entry-FitsArray more slots (c ∷ s) h =
    let handle = (span_until ends_handle (c ∷ s)).0 in
    let after = (parse_count (span_until ends_handle (c ∷ s)).1).1 in
    elim (Bool-cases (c == 10)) [
      | inl newline ↦ rw newline (tt, omega arith)
      | inr other ↦ elim (Bool-cases (length handle == 0 || leb max_handle_len (length handle))) [
        | inl bad ↦ rw (other, bad) (tt, omega arith)
        | inr good ↦
            let (all, size) = h after in
            rw (other, good) (((ground arith, ground arith), all), omega arith)
      ]
    ]

parse_participants-FitsArray :
    (slots : ℕ) (s : Bytes) → FitsArray slots (parse_participants slots s)
unfolding parse_participants
parse_participants-FitsArray zero s = (tt, omega arith)
parse_participants-FitsArray (suc slots) s =
    parse_entry-FitsArray (parse_participants slots) slots (skip_separators s)
      (parse_participants-FitsArray slots)

-- The invariants of `chat_state_t`.
abbrev pub IsState : ChatState → Type 0
IsState s =
    (length s.last_writer < max_handle_len)
    × (length s.last_write < last_write_size)
    × FitsArray max_participants s.participants
    × All (λ (m : ChatMessage). IsShort m.handle) s.messages
    × (length s.messages ≤ max_messages)

-- The function returns a value with the property, or an assertion fires; it does not return -1.
abbrev pub OnOk {ℓ} : {A : Type ℓ} → (A → Type 0) → Outcome A → Type 0
OnOk P (ok a) = P a
OnOk P error = ⊥
OnOk P abort = Unit {0}

abbrev IsShortMessage : Option ChatMessage → Type 0
IsShortMessage none = Unit {0}
IsShortMessage (some m) = IsShort m.handle

asserted-IsShortMessage :
    (b : Bool) (m : ChatMessage) → IsShort m.handle → OnOk IsShortMessage (assert b >> ok (some m))
asserted-IsShortMessage true m h = h
asserted-IsShortMessage false m h = tt

store_message-IsShortMessage :
    (handle : Bytes) (ts : ℤ) (content : Bytes)
    → OnOk IsShortMessage (store_message (handle, ts) content)
unfolding store_message
store_message-IsShortMessage handle ts content =
    elim (Bool-cases (ltb (length handle) max_handle_len && ltb 0 (length handle))) [
      | inl good ↦ rw good (
          asserted-IsShortMessage (length content == strlen content)
            (record { handle = handle; content = content; timestamp = ts })
            (ground arith, ground arith))
      | inr bad ↦ rw bad tt
    ]

parse_at-IsShortMessage : (o : Option (Bytes × Bytes)) → OnOk IsShortMessage (parse_at o)
parse_at-IsShortMessage none = tt
parse_at-IsShortMessage (some (prefix, content)) =
    store_message-IsShortMessage (parse_prefix prefix).0 (parse_prefix prefix).1 content

parse_message-IsShortMessage : (s : Bytes) → OnOk IsShortMessage (parse_message s)
parse_message-IsShortMessage s =
    let h = parse_at-IsShortMessage (find_separator s) in unfold parse_message in h

add_message-IsState :
    (s : ChatState) (o : Option ChatMessage)
    → IsState s
    → length s.messages < max_messages
    → IsShortMessage o
    → IsState (add_message s o)
add_message-IsState s none h room short = h
add_message-IsState s (some m) (writer, write, parts, all, size) room short = (
  writer,
  write,
  parts,
  All-append _ s.messages (m ∷ []) all (short, tt),
  omega (arith, length-append s.messages (m ∷ [])),
)

OnOk-map {ℓ κ} :
    {A : Type ℓ} {B : Type κ} (P : A → Type 0) (Q : B → Type 0) (f : A → B) (o : Outcome A)
    → ((a : A) → P a → Q (f a))
    → OnOk P o
    → OnOk Q (o >>= λ a. ok (f a))
OnOk-map P Q f (ok a) imp h = imp a h
OnOk-map P Q f error imp h = h
OnOk-map P Q f abort imp h = tt

store_decoded-IsState :
    (s : ChatState) (o : Outcome Bytes)
    → IsState s
    → length s.messages < max_messages
    → OnOk IsState (store_decoded s o)
store_decoded-IsState s (ok decoded) h room =
    OnOk-map IsShortMessage IsState (add_message s) (parse_message decoded)
      (λ m short. add_message-IsState s m h room short) (parse_message-IsShortMessage decoded)
store_decoded-IsState s error h room = h
store_decoded-IsState s abort h room = tt

sized-IsState :
    (s : ChatState) (size : Outcome ℕ) (decode : ℕ → Outcome Bytes)
    → OnOk (λ _. Unit {0}) size
    → IsState s
    → length s.messages < max_messages
    → OnOk IsState (size >>= λ n. store_decoded s (decode n))
sized-IsState s (ok n) decode _ h room = store_decoded-IsState s (decode n) h room
sized-IsState s error decode e h room = absurd e
sized-IsState s abort decode _ h room = tt

decoded_size-OnOk : (n : ℕ) → OnOk (λ _. Unit {0}) (base64_decoded_size n)
unfolding base64_decoded_size
decoded_size-OnOk n = elim (Bool-cases (leb n (size_max - 3))) [
  | inl fits ↦ rw fits tt
  | inr large ↦ rw large tt
]

read_message-IsState :
    (s : ChatState) (line : Bytes)
    → IsState s
    → length s.messages < max_messages
    → OnOk IsState (read_message s line)
unfolding read_message
read_message-IsState s line h room =
    sized-IsState s (base64_decoded_size (length line)) (base64_decode line)
      (decoded_size-OnOk (length line)) h room

cut_short : (n m : ℕ) (s : Bytes) → n < m → length (take n s) < m
cut_short n m s h = omega (arith, length-take n s)

parse_header-IsState : (s : ChatState) (line : Bytes) → IsState s → IsState (parse_header s line)
parse_header-IsState s line (writer, write, parts, all, size) =
    let writer' = cut_short 63 max_handle_len (drop 13 line) (omega arith) in
    let write' = cut_short 63 last_write_size (drop 12 line) (omega arith) in
    let parts' = parse_participants-FitsArray max_participants (drop 14 line) in
    let is_writer = has_prefix (codes "last-writer: ") line in
    let is_write = has_prefix (codes "last-write: ") line in
    let is_length = has_prefix (codes "file-length: ") line in
    let is_parts = has_prefix (codes "participants: ") line in
    unfold parse_header in
    elim (Bool-cases is_writer) [
      | inl a ↦ rw a (writer', write, parts, all, size)
      | inr a ↦ elim (Bool-cases is_write) [
        | inl b ↦ rw (a, b) (writer, write', parts, all, size)
        | inr b ↦ elim (Bool-cases is_length) [
          | inl c ↦ rw (a, b, c) (writer, write, parts, all, size)
          | inr c ↦ elim (Bool-cases is_parts) [
            | inl d ↦ rw (a, b, c, d) (writer, write, parts', all, size)
            | inr d ↦ rw (a, b, c, d) (writer, write, parts, all, size)
          ]
        ]
      ]
    ]

abbrev IsReader : Reader → Type 0
IsReader r = IsState r.state

with_state-IsReader :
    (r : Reader) (o : Outcome ChatState) → OnOk IsState o → OnOk IsReader (with_state r o)
with_state-IsReader r (ok s) h = h
with_state-IsReader r error h = h
with_state-IsReader r abort h = tt

read_step-IsReader : (r : Reader) (line : Bytes) → IsReader r → OnOk IsReader (read_step r line)
read_step-IsReader r line h =
    let header : OnOk IsReader (ok (record r { state = parse_header r.state line })) =
      parse_header-IsState r.state line h in
    let stored = with_state r (read_message r.state line) in
    let room_left =
      r.past_header && ltb 0 (length line) && ltb (length r.state.messages) max_messages in
    let message : OnOk IsReader (if room_left then stored else ok r) =
      if_holds (OnOk IsReader) room_left stored (ok r)
        (λ e.
          with_state-IsReader r (read_message r.state line)
            (read_message-IsState r.state line h (ground arith)))
        (λ _. h) in
    unfold read_step in
    if_holds (OnOk IsReader) (str_eq line header_mark) _ _ (λ _. h)
      (λ _.
        if_holds (OnOk IsReader) (r.in_header && str_eq line header_end) _ _ (λ _. h)
          (λ _. if_holds (OnOk IsReader) r.in_header _ _ (λ _. header) (λ _. message)))

after-IsReader :
    (o : Outcome Reader) (more : Reader → Outcome Reader)
    → OnOk IsReader o
    → ((r : Reader) → IsReader r → OnOk IsReader (more r))
    → OnOk IsReader (o >>= more)
after-IsReader (ok r) more h k = k r h
after-IsReader error more h k = h
after-IsReader abort more h k = tt

read_loop-IsReader :
    (lines : List Bytes) (r : Reader) → IsReader r → OnOk IsReader (read_loop r lines)
unfolding read_loop
read_loop-IsReader [] r h = h
read_loop-IsReader (line ∷ lines) r h =
    after-IsReader (read_step r line) (λ r'. read_loop r' lines) (read_step-IsReader r line h)
      (read_loop-IsReader lines)

-- A result of the loop passes the last assertion.
abbrev finish : Reader → Outcome ChatState
finish r = assert (leb (length r.state.messages) max_messages) >> ok r.state

finish-IsState : (o : Outcome Reader) → OnOk IsReader o → OnOk IsState (o >>= finish)
finish-IsState (ok r) h =
    let (_, _, _, _, size) = h in
    let fits : leb (length r.state.messages) max_messages ≡ true = ground arith in simp fits h
finish-IsState error h = h
finish-IsState abort h = tt

start-IsState : IsState start.state
start-IsState = (omega arith, omega arith, (tt, omega arith), tt, omega arith)

-- Whatever a file that can be opened holds, reading it gives a state in which the last writer has at most
-- 63 and the time at most 63 bytes, at most 256 participants and at most 10000 messages are
-- counted, and every handle has 1 to 63 bytes; or an assertion fires. The function never returns -1 for it.
pub chat_read_bounds : (file : Bytes) → OnOk IsState (chat_read (some file))
unfolding chat_read
chat_read_bounds file =
    finish-IsState (read_loop start (read_lines max_message_len file))
      (read_loop-IsReader (read_lines max_message_len file) start start-IsState)
