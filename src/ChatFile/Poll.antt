-- ===== src/ChatFile/Poll.antt =====
-- `chat_poll`: the file is read once, and then once for each second of the timeout. What the reads
-- find in the file is an input, one text for each.
use epistemic_framework.Common.{
  ℕ, zero, suc, Bool, true, false, not, ◌&&◌, ◌||◌, List, [], ◌∷◌, ltb, if◌then◌else◌, length, drop,
  All, Bytes, str_eq, str_eq_iff, Option, some, ◌≡◌, ◌≢◌, refl, arith, ◌⊎◌, inl, inr, Bool-cases,
}
use epistemic_framework.Common.Outcome.{Outcome, ok, ◌>>=◌}
use epistemic_framework.ChatFile.Message.{ChatMessage}
use epistemic_framework.ChatFile.Read.{ChatState, chat_read}
use epistemic_framework.ChatFile.Render.{Chat, render, IsChat}
use epistemic_framework.ChatFile.Render.Read.{chat_read-render}

-- The return codes 0 and 3.
pub data Polled : Type 0 where
  new_message : Polled
  timed_out : Polled

-- The loop over the new messages.
unfoldable pub from_other : Bytes → List ChatMessage → Bool
from_other handle [] = false
from_other handle (m ∷ ms) = not (str_eq m.handle handle) || from_other handle ms

-- The test of one round.
unfoldable pub has_news : Bytes → ℕ → ChatState → Bool
has_news handle initial_count state =
    ltb initial_count (length state.messages)
    && from_other handle (drop initial_count state.messages)

unfoldable pub poll_rounds : Bytes → ℕ → List (Option Bytes) → Outcome Polled
poll_rounds handle initial_count [] = ok timed_out
poll_rounds handle initial_count (file ∷ files) =
    let later = poll_rounds handle initial_count files in
    chat_read file >>= λ state.
    if has_news handle initial_count state then ok new_message else later

unfoldable pub chat_poll : Bytes → Option Bytes → List (Option Bytes) → Outcome Polled
chat_poll handle file files =
    chat_read file >>= λ state. poll_rounds handle (length state.messages) files

-- A message of someone else behind the first `n`.
abbrev pub HasOther : Bytes → ℕ → List ChatMessage → Type 0
HasOther handle n [] = ⊥
HasOther handle zero (m ∷ ms) = (m.handle ≢ handle) ⊎ HasOther handle zero ms
HasOther handle (suc n) (m ∷ ms) = HasOther handle n ms

-- In one of the chats there is one.
abbrev pub SomeNews : Bytes → ℕ → List Chat → Type 0
SomeNews handle n [] = ⊥
SomeNews handle n (c ∷ cs) = HasOther handle n c.messages ⊎ SomeNews handle n cs

abbrev pub files_of : List Chat → List (Option Bytes)
files_of [] = []
files_of (c ∷ cs) = some (render c) ∷ files_of cs

other_first :
    (handle : Bytes) (ms : List ChatMessage)
    → ((from_other handle ms ≡ true) × HasOther handle zero ms)
      ⊎ ((from_other handle ms ≡ false) × (HasOther handle zero ms → ⊥))
unfolding from_other
other_first handle [] = inr (refl, λ h. h)
other_first handle (m ∷ ms) = elim (Bool-cases (str_eq m.handle handle)) [
  | inl same ↦ elim (other_first handle ms) [
    | inl (e, h) ↦ inl (rw (same, e) refl, inr h)
    | inr (e, h) ↦ inr (
      rw (same, e) refl,
      λ o. elim o [ inl ne ↦ ne ((str_eq_iff m.handle handle).0 same) | inr k ↦ h k ],
    )
  ]
  | inr other ↦
      inl
        (rw other refl, inl (λ e. absurd (ground (arith, other, (str_eq_iff m.handle handle).1 e))))
]

-- The loop's test is right: there is a message of someone else behind the first `n`, or there is none.
news_cases :
    (handle : Bytes) (n : ℕ) (ms : List ChatMessage)
    → (((ltb n (length ms) && from_other handle (drop n ms)) ≡ true) × HasOther handle n ms)
      ⊎ (((ltb n (length ms) && from_other handle (drop n ms)) ≡ false)
          × (HasOther handle n ms → ⊥))
news_cases handle zero [] = inr (refl, λ h. h)
news_cases handle zero (m ∷ ms) =
    let more : ltb zero (length (m ∷ ms)) ≡ true = ground arith in
    elim (other_first handle (m ∷ ms)) [
      | inl (e, h) ↦ inl (rw (more, e) refl, h)
      | inr (e, h) ↦ inr (rw (more, e) refl, h)
    ]
news_cases handle (suc n) [] =
    let none_more : ltb (suc n) 0 ≡ false = ground arith in inr (rw none_more refl, λ h. h)
news_cases handle (suc n) (m ∷ ms) =
    let step : ltb (suc n) (length (m ∷ ms)) ≡ ltb n (length ms) = ground arith in
    rw step (news_cases handle n ms)

-- What a poll has found, and why.
abbrev pub PollsTo : Bytes → ℕ → List Chat → Outcome Polled → Type 0
PollsTo handle n cs result =
    ((result ≡ ok new_message) × SomeNews handle n cs)
    ⊎ ((result ≡ ok timed_out) × (SomeNews handle n cs → ⊥))

round :
    (handle : Bytes) (n : ℕ) (c : Chat) (cs : List Chat) (later : Outcome Polled)
    → PollsTo handle n cs later
    → PollsTo handle n (c ∷ cs) (
        if ltb n (length c.messages) && from_other handle (drop n c.messages)
        then ok new_message
        else later)
round handle n c cs later ih = elim (news_cases handle n c.messages) [
  | inl (e, h) ↦ rw e (inl (refl, inl h))
  | inr (e, h) ↦ rw e (elim ih [
    | inl (found, news) ↦ inl (found, inr news)
    | inr (none_found, no_news) ↦
        inr (none_found, λ s. elim s [ inl here ↦ h here | inr there ↦ no_news there ])
  ])
]

poll_rounds_cons :
    (handle : Bytes) (n : ℕ) (c : Chat) (files : List (Option Bytes))
    → IsChat c
    → poll_rounds handle n (some (render c) ∷ files) ≡ (
        if ltb n (length c.messages) && from_other handle (drop n c.messages)
        then ok new_message
        else poll_rounds handle n files)
poll_rounds_cons handle n c files h =
    let read = chat_read-render c h in unfold poll_rounds in rw read (unfold has_news in refl)

rounds_over : (handle : Bytes) (n : ℕ) → poll_rounds handle n [] ≡ ok timed_out
unfolding poll_rounds
rounds_over handle n = refl

poll_rounds-PollsTo :
    (handle : Bytes) (n : ℕ) (cs : List Chat)
    → All IsChat cs
    → PollsTo handle n cs (poll_rounds handle n (files_of cs))
poll_rounds-PollsTo handle n [] h = inr (rounds_over handle n, λ news. news)
poll_rounds-PollsTo handle n (c ∷ cs) (hc, h) =
    rw (poll_rounds_cons handle n c (files_of cs) hc)
      (round handle n c cs (poll_rounds handle n (files_of cs)) (poll_rounds-PollsTo handle n cs h))

-- A poll that finds the file of a chat at the start and after each second: it returns 0 exactly if one of the
-- later chats has, behind as many messages as there were at the start, a message of someone else
-- than the poller; otherwise it returns 3 at the end of the timeout.
pub chat_poll_cases :
    (handle : Bytes) (c : Chat) (cs : List Chat)
    → IsChat c
    → All IsChat cs
    → PollsTo handle (length c.messages) cs (chat_poll handle (some (render c)) (files_of cs))
chat_poll_cases handle c cs hc h =
    let read = chat_read-render c hc in
    unfold chat_poll in rw read (poll_rounds-PollsTo handle (length c.messages) cs h)
