-- ===== src/ChatFile/Render/Refine.antt =====
-- `chat_create`, `chat_send` and `chat_read` together: the file is the chat, and stays one.
use epistemic_framework.Common.{
  ℕ, zero, suc, ◌+◌, ◌*◌, ◌≤◌, ◌<◌, true, false, List, [], ◌∷◌, leb, ltb, ◌==◌, length,
  length-append, take, take_whole, All, All-append, Bytes, codes, str_eq, Option, none, some, ◌≡◌,
  refl, ◌∙◌, ap, arith, inl, inr, Bool-cases, Option-cases,
}
use epistemic_framework.Common.Outcome.{ok, error}
use epistemic_framework.Common.Int.{ℤ, pos, negsuc}
use epistemic_framework.ChatFile.Length.{compute_file_length}
use epistemic_framework.ChatFile.Participants.{
  Participant, max_handle_len, max_participants, increment, bump, bumped_or, add_participant,
  update_participants, format_participants,
}
use epistemic_framework.ChatFile.Participants.RoundTrip.{IsHandle, IsInt}
use epistemic_framework.ChatFile.Participants.Update.{IsBelowMax}
use epistemic_framework.ChatFile.Message.{ChatMessage}
use epistemic_framework.Common.Fgets.{unlines}
use epistemic_framework.ChatFile.Read.{max_messages, last_write_size, chat_read}
use epistemic_framework.ChatFile.Send.{
  content_without_length, content_with_length, chat_create, parts_size, chat_send,
}
use epistemic_framework.ChatFile.Render.{
  Chat, chat_length, render, state_of, IsPlain, IsMessage, IsEntry, IsChat, append_message,
}
use epistemic_framework.ChatFile.Render.Lines.{handle_short}
use epistemic_framework.ChatFile.Render.Read.{chat_read-render}
use epistemic_framework.ChatFile.Render.Send.{length-consistent, length-render, chat_send_lem}

-- A participant whose count can still be incremented.
abbrev pub IsCountable : Participant → Type 0
IsCountable p = IsEntry p × IsBelowMax (some p.count)

increment-IsInt : (z : ℤ) → IsInt z → IsBelowMax (some z) → IsInt (increment z)
increment-IsInt (pos n) h below = ground arith
increment-IsInt (negsuc zero) h below = refl
increment-IsInt (negsuc (suc n)) h below = ground arith

counted-IsEntry :
    (p : Participant) → IsCountable p → IsEntry (record p { count = increment p.count })
counted-IsEntry p (((h, i), plain), below) = ((h, increment-IsInt p.count i below), plain)

plain_entries : (ps : List Participant) → All IsCountable ps → All IsEntry ps
plain_entries [] h = tt
plain_entries (p ∷ ps) ((hp, _), h) = (hp, plain_entries ps h)

abbrev AreEntries : ℕ → Option (List Participant) → Type 0
AreEntries n none = Unit {0}
AreEntries n (some ps) = All IsEntry ps × (length ps ≡ n)

bump-AreEntries :
    (sender : Bytes) (ps : List Participant)
    → All IsCountable ps
    → AreEntries (length ps) (bump sender ps)
unfolding bump
bump-AreEntries sender [] h = tt
bump-AreEntries sender (p ∷ ps) (hp, h) = elim (Bool-cases (str_eq p.handle sender)) [
  | inl same ↦ rw same ((counted-IsEntry p hp, plain_entries ps h), refl)
  | inr other ↦ elim (Option-cases (bump sender ps)) [
    | inl missing ↦ rw (other, missing) tt
    | inr (ps', found) ↦
        let ih : All IsEntry ps' × (length ps' ≡ length ps) =
          rw found at (bump-AreEntries sender ps h) in
        rw (other, found) ((hp.0, ih.0), ap suc ih.1)
  ]
]

bumped-entries :
    (n : ℕ) (more : List Participant) (o : Option (List Participant))
    → AreEntries n o
    → n ≤ max_participants
    → All IsEntry more × (length more ≤ max_participants)
    → All IsEntry (bumped_or more o) × (length (bumped_or more o) ≤ max_participants)
bumped-entries n more none h le hm = hm
bumped-entries n more (some ps) h le hm = (h.0, omega (arith, h.1))

add_participant-entries :
    (ps : List Participant) (sender : Bytes)
    → All IsEntry ps
    → length ps ≤ max_participants
    → IsHandle sender
    → IsPlain sender
    → All IsEntry (add_participant ps sender max_participants)
      × (length (add_participant ps sender max_participants) ≤ max_participants)
unfolding add_participant
add_participant-entries ps sender h le handle plain =
    elim (Bool-cases (leb max_participants (length ps))) [
      | inl full ↦ rw full (h, le)
      | inr free ↦
          let short = handle_short sender handle in
          let whole : take 63 sender ≡ sender = take_whole 63 sender (omega arith) in
          rw (free, whole)
            (
              All-append IsEntry ps _ h (((handle, refl), plain), tt),
              ground (arith, length-append ps (record { handle = sender; count = pos 1 } ∷ [])),
            )
    ]

update_participants-entries :
    (ps : List Participant) (sender : Bytes)
    → All IsCountable ps
    → length ps ≤ max_participants
    → IsHandle sender
    → IsPlain sender
    → All IsEntry (update_participants ps sender max_participants)
      × (length (update_participants ps sender max_participants) ≤ max_participants)
unfolding update_participants
update_participants-entries ps sender h le handle plain =
    bumped-entries (length ps) (add_participant ps sender max_participants) (bump sender ps)
      (bump-AreEntries sender ps h) le
      (add_participant-entries ps sender (plain_entries ps h) le handle plain)

-- A send that the file has room for.
abbrev pub HasRoom : Chat → ChatMessage → Type 0
HasRoom c m =
    (length c.messages < max_messages)
    × All IsCountable c.participants
    × (length (update_participants c.participants m.handle max_participants) * (max_handle_len + 14)
        < parts_size)

-- A sender that both the header and the message line can hold, a text for the time that the header
-- can hold.
abbrev pub IsPost : ChatMessage → Bytes → Type 0
IsPost m timestamp =
    IsMessage m
    × IsHandle m.handle
    × IsPlain m.handle
    × (IsPlain timestamp × (length timestamp < last_write_size))

-- A chat with one more message is a chat.
pub append_message-IsChat :
    (c : Chat) (m : ChatMessage) (timestamp : Bytes)
    → IsChat c
    → IsPost m timestamp
    → HasRoom c m
    → IsChat (append_message c m timestamp)
append_message-IsChat c m timestamp (_, _, (_, lp), (hm, lm)) (hmsg, handle, plain, time)
      (room, countable, _) =
    (
      (plain, handle_short m.handle handle),
      time,
      update_participants-entries c.participants m.handle countable lp handle plain,
      (
        All-append IsMessage c.messages (m ∷ []) hm (hmsg, tt),
        omega (arith, length-append c.messages (m ∷ [])),
      ),
    )

-- A send on the file of a chat, within the limits of the header and of the readers, writes the file of the chat with the message at its end
-- and the sender counted. The index that is passed to the cursor is that of the new message, a read of the
-- new file gives all old messages and the new one, and the length in its header is its length. No
-- assertion fires.
pub chat_send-render :
    (c : Chat) (m : ChatMessage) (timestamp : Bytes)
    → IsChat c
    → IsPost m timestamp
    → HasRoom c m
    → (chat_send (some (render c)) m.handle m.content m.timestamp timestamp
        ≡ ok (record {
          file = render (append_message c m timestamp);
          encoded_line_count = length c.messages;
        }))
      × (chat_read (some (render (append_message c m timestamp)))
          ≡ ok (state_of (append_message c m timestamp)))
      × (length (render (append_message c m timestamp))
          ≡ chat_length (append_message c m timestamp))
chat_send-render c m timestamp chat post room =
    let after = append_message-IsChat c m timestamp chat post room in
    let (_, _, few) = room in
    (
      chat_send_lem c m timestamp chat after few,
      chat_read-render (append_message c m timestamp) after,
      length-render (append_message c m timestamp),
    )

abbrev pub new_chat : Bytes → Chat
new_chat timestamp = record {
  last_writer = codes "system";
  last_write = timestamp;
  participants = [];
  messages = [];
}

create_short :
    (t : Bytes)
    → length t < last_write_size
    → ltb (length (content_without_length (codes "system") t [] [])) 1024 ≡ true
unfolding content_without_length unlines
create_short t h = let n = length-append t (10 ∷ codes "participants: \n---\n") in ground (arith, n)

render-new_chat :
    (t : Bytes)
    → content_with_length
        (codes "system")
        t
        (compute_file_length (content_without_length (codes "system") t [] []))
        []
        []
      ≡ render (new_chat t)
unfolding render chat_length format_participants
render-new_chat t = refl

create_new :
    (t : Bytes) → length t < last_write_size → chat_create false t ≡ ok (render (new_chat t))
create_new t short =
    let fits = create_short t short in
    let content = content_without_length (codes "system") t [] [] in
    let n = compute_file_length content in
    let same : (length (content_with_length (codes "system") t n [] []) == n) ≡ true =
      ground (arith, length-consistent (codes "system") t [] n [] refl) in
    let e : chat_create false t ≡ ok (content_with_length (codes "system") t n [] []) =
      unfold chat_create in rw (fits, same) in
    e ∙ ap ok (render-new_chat t)

-- A new file is that of a chat without messages, and a file that exists is left alone.
pub chat_create-render :
    (timestamp : Bytes)
    → IsPlain timestamp
    → length timestamp < last_write_size
    → (chat_create false timestamp ≡ ok (render (new_chat timestamp)))
      × (chat_create true timestamp ≡ error)
      × IsChat (new_chat timestamp)
chat_create-render timestamp plain short = (
  create_new timestamp short,
  unfold chat_create in refl,
  (
    ((refl, (refl, (refl, (refl, (refl, (refl, tt)))))), omega arith),
    (plain, short),
    (tt, omega arith),
    (tt, omega arith),
  ),
)
