-- ===== src/Terminal/Display/Shown.antt =====
-- Which messages the polls of the terminal client show.
use epistemic_framework.Common.{
  ◌+◌, true, false, List, [], ◌∷◌, ◌++◌, append_assoc, append-nil, leb, length, length-append,
  drop-length-append, Bytes, str_eq, str_eq_iff, Option, some, ◌≡◌, ◌≢◌, refl, sym, ◌∙◌, ap, arith,
  inl, inr, Bool-cases,
}
use epistemic_framework.Common.Outcome.{ok}
use epistemic_framework.ChatFile.Message.{ChatMessage}
use epistemic_framework.ChatFile.Poll.{from_other}
use epistemic_framework.ChatFile.Render.{Chat, render, IsChat, append_message}
use epistemic_framework.ChatFile.Render.Refine.{
  HasRoom, IsPost, append_message-IsChat, chat_send-render,
}
use epistemic_framework.ChatFile.Render.Read.{chat_read-render}
use epistemic_framework.Terminal.Display.{others, show_new, poll_and_display, send_and_display}

others_none :
    (handle : Bytes) (ms : List ChatMessage) → from_other handle ms ≡ false → others handle ms ≡ []
unfolding from_other others
others_none handle [] h = refl
others_none handle (m ∷ ms) h = ground (arith, others_none handle ms)

others-append :
    (handle : Bytes) (xs ys : List ChatMessage)
    → others handle (xs ++ ys) ≡ others handle xs ++ others handle ys
unfolding others
others-append handle [] ys = refl
others-append handle (m ∷ xs) ys = elim (Bool-cases (str_eq m.handle handle)) [
  | inl own ↦ rw own (others-append handle xs ys)
  | inr other ↦ rw other (ap (m ∷◌) (others-append handle xs ys))
]

others_own :
    (handle : Bytes) (ms : List ChatMessage) (m : ChatMessage)
    → m.handle ≡ handle
    → others handle (ms ++ (m ∷ [])) ≡ others handle ms
others_own handle ms m own =
    let same : str_eq m.handle handle ≡ true = (str_eq_iff m.handle handle).1 own in
    let last : others handle (m ∷ []) ≡ [] = unfold others in rw same refl in
    others-append handle ms (m ∷ [])
    ∙ ap (others handle ms ++◌) last
    ∙ append-nil (others handle ms)

-- All new messages of others are shown, and all messages are counted.
show_new_lem :
    (handle : Bytes) (old new : List ChatMessage)
    → show_new handle (length old) (old ++ new)
      ≡ record { msg_count = length (old ++ new); shown = others handle new }
show_new_lem handle old [] =
    let none_new : leb (length (old ++ [])) (length old) ≡ true =
      ground (arith, length-append old []) in
    let same : length old ≡ length (old ++ []) = omega (arith, length-append old []) in
    unfold show_new others in rw none_new (ap (λ n. record { msg_count = n; shown = [] }) same)
show_new_lem handle old (m ∷ new) =
    let some_new : leb (length (old ++ (m ∷ new))) (length old) ≡ false =
      ground (arith, length-append old (m ∷ new)) in
    elim (Bool-cases (from_other handle (m ∷ new))) [
      | inl news ↦ unfold show_new in rw (some_new, drop-length-append old (m ∷ new), news) refl
      | inr own ↦
          unfold show_new in
          rw (some_new, drop-length-append old (m ∷ new), own, others_none handle (m ∷ new) own)
            refl
    ]

poll_chat :
    (handle : Bytes) (c : Chat) (old new : List ChatMessage)
    → IsChat c
    → c.messages ≡ old ++ new
    → poll_and_display handle (length old) (some (render c))
      ≡ ok (record { msg_count = length (old ++ new); shown = others handle new })
poll_chat handle c old new chat messages =
    unfold poll_and_display in
    rw (chat_read-render c chat) (
      ap (λ ms. ok (show_new handle (length old) ms)) messages
      ∙ ap ok (show_new_lem handle old new))

-- Each chat has the messages of the one before and then more, `new` are all that come in behind `old`.
abbrev pub Grows : List ChatMessage → List Chat → List ChatMessage → Type 0
Grows old [] new = new ≡ []
Grows old (c ∷ cs) new =
    IsChat c
    × ((more : List ChatMessage) × (later : List ChatMessage) × (c.messages ≡ old ++ more)
        × (new ≡ more ++ later)
        × Grows (old ++ more) cs later)

abbrev pub files : List Chat → List (Option Bytes)
files [] = []
files (c ∷ cs) = some (render c) ∷ files cs

shows_other :
    (handle : Bytes) (m : ChatMessage) (ms : List ChatMessage)
    → m.handle ≢ handle
    → others handle (m ∷ ms) ≡ m ∷ others handle ms
shows_other handle m ms other = elim (Bool-cases (str_eq m.handle handle)) [
  | inl same ↦ absurd (other ((str_eq_iff m.handle handle).0 same))
  | inr differs ↦ unfold others in rw differs refl
]

-- A message of someone else that no poll has seen yet: a poll now would show it. But a send adds one to the count for
-- its own message, so that the poll behind the send takes the unseen message for a known one: it shows the messages
-- of others behind that one only, and counts all, so that no later poll shows it either.
pub send_hides_unseen :
    (handle : Bytes) (c : Chat) (old more : List ChatMessage) (unseen m : ChatMessage)
    (timestamp : Bytes)
    → IsChat c
    → unseen.handle ≢ handle
    → c.messages ≡ old ++ (unseen ∷ more)
    → m.handle ≡ handle
    → IsPost m timestamp
    → HasRoom c m
    → (poll_and_display handle (length old) (some (render c))
        ≡ ok (record { msg_count = length c.messages; shown = unseen ∷ others handle more }))
      × ((file : Option Bytes) × (send_and_display m.handle
              (length old)
              (some (render c))
              m.content
              m.timestamp
              timestamp
            ≡ ok (length old + 1, file))
          × (poll_and_display handle (length old + 1) file
              ≡ ok (record { msg_count = length c.messages + 1; shown = others handle more })))
send_hides_unseen handle c old more unseen m timestamp chat other messages own post room =
    let c' = append_message c m timestamp in
    let chat' = append_message-IsChat c m timestamp chat post room in
    let sent = (chat_send-render c m timestamp chat post room).0 in
    let seen = old ++ (unseen ∷ []) in
    let behind = more ++ (m ∷ []) in
    let all : c.messages ++ (m ∷ []) ≡ seen ++ behind =
      ap (λ ms. ms ++ (m ∷ [])) messages
      ∙ append_assoc old (unseen ∷ more) (m ∷ [])
      ∙ sym (append_assoc old (unseen ∷ []) behind) in
    let one_more : length seen ≡ length old + 1 = omega (arith, length-append old (unseen ∷ [])) in
    let counted : length (seen ++ behind) ≡ length c.messages + 1 =
      omega (arith, ap length all, length-append c.messages (m ∷ [])) in
    let polled = poll_chat handle c' seen behind chat' all in
    let before = poll_chat handle c old (unseen ∷ more) chat messages in
    let total : length (old ++ (unseen ∷ more)) ≡ length c.messages = sym (ap length messages) in
    (
      rw (total, shows_other handle unseen more other) at before,
      (
        some (render c'),
        (unfold send_and_display in rw sent refl),
        rw (one_more, counted, others_own handle more m own) at polled,
      ),
    )
