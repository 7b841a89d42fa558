-- ===== src/ChatFile/Message/RoundTrip.antt =====
-- A line that `chat_send` builds is read back by `chat_read` as the message it was built of.
use epistemic_framework.Common.{
  ℕ, ◌^◌, ◌≤◌, ◌<◌, true, false, ◌&&◌, ◌||◌, [], ◌∷◌, ◌++◌, append-nil, ltb, ◌==◌, length, All,
  All-map, Lacks, Bytes, span_until_at, span_until_none, Option, none, some, ◌≡◌, ◌≢◌, refl, sym,
  ◌∙◌, ap, arith, inl, inr, Bool-cases,
}
use epistemic_framework.Common.Outcome.{ok}
use epistemic_framework.Common.Int.{pos, llong_max}
use epistemic_framework.Common.Decimal.{print_ℕ, print_ℤ, strtoll, not_digit}
use epistemic_framework.Common.Decimal.RoundTrip.{print_ℕ-IsDigits, strtoll-print_ℕ}
use epistemic_framework.Common.Decimal.Length.{length-print_ℕ_pos, length-print_ℕ_pow}
use epistemic_framework.ChatFile.Participants.{max_handle_len, safe_parse_int64}
use epistemic_framework.ChatFile.Message.{
  message_line, starts_with_space, before, find_separator, parse_epoch, is_pipe, parse_prefix,
  is_nul, store_message, parse_message,
}

-- A sender that a message line can hold: 1 to 63 bytes, no NUL, no '|' and no ": ".
abbrev pub IsSender : Bytes → Type 0
IsSender handle =
    (1 ≤ length handle)
    × (length handle < max_handle_len)
    × Lacks 0 handle
    × Lacks b'|' handle
    × (find_separator handle ≡ none)

-- What is found behind a text without a separator.
abbrev found_behind : Bytes → Option (Bytes × Bytes) → Option (Bytes × Bytes)
found_behind s none = none
found_behind s (some (prefix, content)) = some (s ++ prefix, content)

meets :
    (s t : Bytes)
    → starts_with_space t ≡ false
    → starts_with_space (s ++ t) ≡ true
    → starts_with_space s ≡ true
meets [] t ht h = absurd (ground arith)
meets (c ∷ s) t ht h = h

before-none : (c : ℕ) (o : Option (Bytes × Bytes)) → before c o ≡ none → o ≡ none
before-none c none e = refl
before-none c (some x) e = absurd (ground arith)

found_before :
    (c : ℕ) (s : Bytes) (o : Option (Bytes × Bytes))
    → before c (found_behind s o) ≡ found_behind (c ∷ s) o
found_before c s none = refl
found_before c s (some x) = refl

found_nil : (o : Option (Bytes × Bytes)) → found_behind [] o ≡ o
found_nil none = refl
found_nil (some x) = refl

none_first :
    (c : ℕ) (s : Bytes)
    → (c == 0) ≡ false
    → find_separator (c ∷ s) ≡ none
    → ((c == b':' && starts_with_space s) ≡ false) × (find_separator s ≡ none)
unfolding find_separator
none_first c s nul e = elim (Bool-cases (c == b':' && starts_with_space s)) [
  | inl h ↦ absurd (ground (arith, rw (nul, h) at e))
  | inr h ↦ (h, before-none c (find_separator s) (rw (nul, h) at e))
]

find_separator_next :
    (c : ℕ) (s : Bytes)
    → (c == 0) ≡ false
    → (c == b':' && starts_with_space s) ≡ false
    → find_separator (c ∷ s) ≡ before c (find_separator s)
unfolding find_separator
find_separator_next c s nul here = rw (nul, here)

find_separator_here : (s : Bytes) → find_separator (b':' ∷ b' ' ∷ s) ≡ some ([], s)
unfolding find_separator
find_separator_here s = refl

find_separator_nil : find_separator [] ≡ none
unfolding find_separator
find_separator_nil = refl

-- The separator is found behind `s`, if `s` has none and none arises where the texts meet.
find_separator-append :
    (s t : Bytes)
    → Lacks 0 s
    → find_separator s ≡ none
    → starts_with_space t ≡ false
    → find_separator (s ++ t) ≡ found_behind s (find_separator t)
find_separator-append [] t nul none_in space = sym (found_nil (find_separator t))
find_separator-append (c ∷ s) t (c_nul, nul) none_in space =
    let not_nul : (c == 0) ≡ false = ground arith in
    let (here, later) = none_first c s not_nul none_in in
    let met = meets s t space in
    let here' : (c == b':' && starts_with_space (s ++ t)) ≡ false = ground (arith, met) in
    let ih = find_separator-append s t nul later space in
    find_separator_next c (s ++ t) not_nul here'
    ∙ ap (before c) ih
    ∙ found_before c s (find_separator t)

no_separator : (s : Bytes) → All (λ c. (c == 0 || c == b':') ≡ false) s → find_separator s ≡ none
no_separator [] h = find_separator_nil
no_separator (c ∷ s) (hc, h) =
    find_separator_next c s (ground arith) (ground arith) ∙ ap (before c) (no_separator s h)

digit_no_stop : (c : ℕ) → not_digit c ≡ false → (c == 0 || c == b':') ≡ false
digit_no_stop c h = ground arith

digit_no_nul : (c : ℕ) → not_digit c ≡ false → c ≢ 0
digit_no_nul c h e = ground arith

-- `pipe ∷ epoch` holds no separator.
epoch_no_separator : (now : ℕ) → find_separator (b'|' ∷ print_ℕ now) ≡ none
epoch_no_separator now =
    no_separator (b'|' ∷ print_ℕ now)
      (refl, All-map _ _ digit_no_stop (print_ℕ now) (print_ℕ-IsDigits now))

epoch-Lacks : (now : ℕ) → Lacks 0 (b'|' ∷ print_ℕ now)
epoch-Lacks now =
    ((λ e. ground arith), All-map _ _ digit_no_nul (print_ℕ now) (print_ℕ-IsDigits now))

find_separator-message_line :
    (handle : Bytes) (now : ℕ) (message : Bytes)
    → IsSender handle
    → find_separator (message_line handle (pos now) message)
      ≡ some (handle ++ (b'|' ∷ print_ℕ now), message)
unfolding message_line print_ℤ
find_separator-message_line handle now message (_, _, nul, _, free) =
    let tail = b':' ∷ b' ' ∷ message in
    let behind : find_separator ((b'|' ∷ print_ℕ now) ++ tail)
        ≡ some ((b'|' ∷ print_ℕ now) ++ [], message) =
      find_separator-append (b'|' ∷ print_ℕ now) tail (epoch-Lacks now) (epoch_no_separator now)
        refl
      ∙ ap (found_behind (b'|' ∷ print_ℕ now)) (find_separator_here message) in
    find_separator-append handle ((b'|' ∷ print_ℕ now) ++ tail) nul free refl
    ∙ ap (found_behind handle) behind
    ∙ ap (λ e. some (handle ++ (b'|' ∷ e), message)) (append-nil (print_ℕ now))

parse_epoch-print_ℕ : (now : ℕ) → 1 ≤ now → now ≤ llong_max → parse_epoch (print_ℕ now) ≡ pos now
parse_epoch-print_ℕ now one fits =
    let lo : ltb 0 (length (print_ℕ now)) ≡ true = ground (arith, length-print_ℕ_pos now) in
    let small : now < 10 ^ 19 = omega arith in
    let hi : ltb (length (print_ℕ now)) 20 ≡ true =
      ground (arith, length-print_ℕ_pow 19 now (omega arith) small) in
    let read : strtoll (print_ℕ now ++ [])
        ≡ record { value = pos now; converted = true; rest = []; out_of_range = false } =
      strtoll-print_ℕ now [] fits tt in
    let read' : strtoll (print_ℕ now)
        ≡ record { value = pos now; converted = true; rest = []; out_of_range = false } =
      rw append-nil at read in
    unfold parse_epoch in unfold safe_parse_int64 in rw (lo, hi, read')

pipe_free : (c : ℕ) → c ≢ b'|' → is_pipe c ≡ false
pipe_free c h = elim (Bool-cases (is_pipe c)) [ inl e ↦ absurd (h (ground arith)) | inr e ↦ e ]

nul_free : (c : ℕ) → c ≢ 0 → is_nul c ≡ false
nul_free c h = elim (Bool-cases (is_nul c)) [ inl e ↦ absurd (h (ground arith)) | inr e ↦ e ]

parse_prefix-epoch :
    (handle : Bytes) (now : ℕ)
    → Lacks b'|' handle
    → 1 ≤ now
    → now ≤ llong_max
    → parse_prefix (handle ++ (b'|' ∷ print_ℕ now)) ≡ (handle, pos now)
parse_prefix-epoch handle now no_pipe one fits =
    let span =
      span_until_at is_pipe handle b'|' (print_ℕ now) (All-map _ _ pipe_free handle no_pipe) refl in
    let epoch = parse_epoch-print_ℕ now one fits in unfold parse_prefix in rw (span, epoch)

-- A message line is read back: for a handle of 1 to 63 bytes without a NUL, a pipe and a colon with a space
-- behind it, a positive time in the range of time_t, and any content without a NUL (one with colons,
-- pipes or newlines too), the reader stores exactly the handle, the time and the content, and no assertion
-- fires.
pub parse_message-message_line :
    (handle : Bytes) (now : ℕ) (message : Bytes)
    → IsSender handle
    → 1 ≤ now
    → now ≤ llong_max
    → Lacks 0 message
    → parse_message (message_line handle (pos now) message)
      ≡ ok (some (record { handle = handle; content = message; timestamp = pos now }))
parse_message-message_line handle now message sender one fits no_nul =
    let (some_len, short, _, no_pipe, _) = sender in
    let found = find_separator-message_line handle now message sender in
    let prefix = parse_prefix-epoch handle now no_pipe one fits in
    let lo : ltb 0 (length handle) ≡ true = ground arith in
    let hi : ltb (length handle) max_handle_len ≡ true = ground arith in
    let whole = span_until_none is_nul message (All-map _ _ nul_free message no_nul) in
    let same : (length message == length message) ≡ true = ground arith in
    unfold parse_message in rw (found, prefix) (unfold store_message in rw (lo, hi, whole, same))
