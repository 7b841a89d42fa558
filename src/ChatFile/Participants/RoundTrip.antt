-- ===== src/ChatFile/Participants/RoundTrip.antt =====
-- `parse_participants` reads back what `format_participants` writes.
use epistemic_framework.Common.{
  ℕ, zero, suc, ◌^◌, ◌≤◌, ◌<◌, true, false, ◌||◌, List, [], ◌∷◌, ◌++◌, append-nil, append_assoc,
  ltb, leb, ◌==◌, length, All, All-map, Bytes, span_until, span_until_at, some, ◌≡◌, refl, ◌∙◌, ap,
  arith,
}
use epistemic_framework.Common.Int.{ℤ, pos, negsuc, within, int_min, int_max_ℤ}
use epistemic_framework.Common.Decimal.{print_ℕ, print_ℤ, not_digit, Strtoll, strtoll}
use epistemic_framework.Common.Decimal.RoundTrip.{
  print_ℕ-IsDigits, strtoll-print_ℕ, strtoll-print_ℤ,
}
use epistemic_framework.Common.Decimal.Length.{length-print_ℕ_pos, length-print_ℕ_pow}
use epistemic_framework.ChatFile.Participants.{
  Participant, safe_parse_int, skip_separators, ends_handle, closes_count, parse_count, parse_entry,
  parse_participants, format_entry, format_participants, max_handle_len,
}

-- An `int`.
abbrev pub IsInt : ℤ → Type 0
IsInt z = within int_min int_max_ℤ z ≡ true

-- A handle that the line can hold: 1 to 63 bytes, none of them a parenthesis that opens, a comma
-- or a newline, and no space in front.
abbrev pub IsHandle : Bytes → Type 0
IsHandle [] = ⊥
IsHandle (c ∷ s) =
    ((c == b' ') ≡ false)
    × All (λ b. ends_handle b ≡ false) (c ∷ s)
    × (length (c ∷ s) < max_handle_len)

abbrev pub IsListable : Participant → Type 0
IsListable p = IsHandle p.handle × IsInt p.count

no_close : (c : ℕ) → not_digit c ≡ false → closes_count c ≡ false
no_close c h = ground arith

print_ℤ-no_close : (z : ℤ) → All (λ b. closes_count b ≡ false) (print_ℤ z)
unfolding print_ℤ
print_ℤ-no_close (pos n) = All-map _ _ no_close (print_ℕ n) (print_ℕ-IsDigits n)
print_ℤ-no_close (negsuc n) =
    (refl, All-map _ _ no_close (print_ℕ (suc n)) (print_ℕ-IsDigits (suc n)))

pub length-print_ℤ : (z : ℤ) → IsInt z → (1 ≤ length (print_ℤ z)) × (length (print_ℤ z) ≤ 11)
unfolding print_ℤ
length-print_ℤ (pos n) h =
    let small : n < 10 ^ 10 = ground arith in
    (length-print_ℕ_pos n, omega (arith, length-print_ℕ_pow 10 n (omega arith) small))
length-print_ℤ (negsuc n) h =
    let small : suc n < 10 ^ 10 = ground arith in
    (omega arith, omega (arith, length-print_ℕ_pow 10 (suc n) (omega arith) small))

abbrev printed : ℤ → Strtoll
printed z = record { value = z; converted = true; rest = []; out_of_range = false }

strtoll-print : (z : ℤ) → IsInt z → strtoll (print_ℤ z) ≡ printed z
strtoll-print (pos n) h =
    let e : strtoll (print_ℕ n ++ []) ≡ printed (pos n) = strtoll-print_ℕ n [] (ground arith) tt in
    let e' : strtoll (print_ℕ n) ≡ printed (pos n) = rw append-nil at e in unfold print_ℤ in e'
strtoll-print (negsuc n) h =
    let e : strtoll (print_ℤ (negsuc n) ++ []) ≡ printed (negsuc n) =
      strtoll-print_ℤ n [] (ground arith) tt in
    rw append-nil at e

safe_parse_int-print : (z : ℤ) → IsInt z → safe_parse_int (print_ℤ z) ≡ some z
unfolding safe_parse_int
safe_parse_int-print z h = rw (strtoll-print z h, h)

parse_count-print :
    (z : ℤ) (rest : Bytes) → IsInt z → parse_count (b'(' ∷ (print_ℤ z ++ (b')' ∷ rest))) ≡ (z, rest)
unfolding parse_count
parse_count-print z rest h =
    let l = length-print_ℤ z h in
    let lo : ltb 0 (length (print_ℤ z)) ≡ true = ground arith in
    let hi : ltb (length (print_ℤ z)) 16 ≡ true = ground arith in
    rw (
      span_until_at closes_count (print_ℤ z) b')' rest (print_ℤ-no_close z) refl,
      lo,
      hi,
      safe_parse_int-print z h,
    )

skip_separators_stop :
    (c : ℕ) (s : Bytes)
    → (c == b' ') ≡ false
    → (c == b',') ≡ false
    → skip_separators (c ∷ s) ≡ c ∷ s
unfolding skip_separators
skip_separators_stop c s h k = rw (h, k)

is_listable_start :
    (c : ℕ) (s : Bytes)
    → IsHandle (c ∷ s)
    → ((c == b' ') ≡ false) × ((c == b',') ≡ false) × ((c == 10) ≡ false)
is_listable_start c s (h, (e, _), _) = (h, ground arith, ground arith)

handle_length :
    (c : ℕ) (s : Bytes)
    → IsHandle (c ∷ s)
    → (length (c ∷ s) == 0 || leb max_handle_len (length (c ∷ s))) ≡ false
handle_length c s (_, _, h) = ground arith

-- One round reads one entry back, and goes on behind it.
parse_entry-format_entry :
    (more : Bytes → List Participant) (handle : Bytes) (z : ℤ) (rest : Bytes)
    → IsHandle handle
    → IsInt z
    → parse_entry more (skip_separators (handle ++ (b'(' ∷ (print_ℤ z ++ (b')' ∷ rest)))))
      ≡ record { handle = handle; count = z } ∷ more rest
parse_entry-format_entry more [] z rest h i = absurd h
parse_entry-format_entry more (c ∷ s) z rest h i =
    let (space, comma, newline) = is_listable_start c s h in
    let (_, allowed, _) = h in
    let tail = b'(' ∷ (print_ℤ z ++ (b')' ∷ rest)) in
    let span : span_until ends_handle (c ∷ (s ++ tail)) ≡ (c ∷ s, tail) =
      span_until_at ends_handle (c ∷ s) b'(' (print_ℤ z ++ (b')' ∷ rest)) allowed refl in
    let counted : parse_count tail ≡ (z, rest) = parse_count-print z rest i in
    let fits = handle_length c s h in
    rw (skip_separators_stop c (s ++ tail) space comma)
      (unfold parse_entry in rw (span, counted, newline, fits))

skip_separators_more : (s : Bytes) → skip_separators (b',' ∷ b' ' ∷ s) ≡ skip_separators s
unfolding skip_separators
skip_separators_more s = refl

-- The separator in front of an entry does not change what the loop reads.
parse_participants_more :
    (slots : ℕ) (s : Bytes)
    → parse_participants slots (b',' ∷ b' ' ∷ s) ≡ parse_participants slots s
unfolding parse_participants
parse_participants_more zero s = refl
parse_participants_more (suc slots) s = rw (skip_separators_more s)

parse_participants-nil : (slots : ℕ) → parse_participants slots [] ≡ []
unfolding parse_participants parse_entry skip_separators
parse_participants-nil zero = refl
parse_participants-nil (suc slots) = refl

parse_participants_last :
    (slots : ℕ) (p : Participant)
    → IsListable p
    → parse_participants (suc slots) (format_participants (p ∷ [])) ≡ p ∷ []
unfolding format_participants parse_participants
parse_participants_last slots p hp =
    parse_entry-format_entry (parse_participants slots) p.handle p.count [] hp.0 hp.1
    ∙ ap (λ r. p ∷ r) (parse_participants-nil slots)

parse_participants_next :
    (slots : ℕ) (p q : Participant) (ps : List Participant)
    → IsListable p
    → parse_participants (suc slots) (format_participants (p ∷ q ∷ ps))
      ≡ p ∷ parse_participants slots (format_participants (q ∷ ps))
parse_participants_next slots p q ps hp =
    let rest = format_participants (q ∷ ps) in
    let round =
      parse_entry-format_entry (parse_participants slots) p.handle p.count (b',' ∷ b' ' ∷ rest) hp.0
        hp.1 in
    let assoc : format_entry p ++ (b',' ∷ b' ' ∷ rest)
        ≡ p.handle ++ (b'(' ∷ (print_ℤ p.count ++ (b')' ∷ b',' ∷ b' ' ∷ rest))) =
      append_assoc p.handle (b'(' ∷ (print_ℤ p.count ++ (b')' ∷ []))) (b',' ∷ b' ' ∷ rest)
      ∙ ap (λ t. p.handle ++ (b'(' ∷ t))
          (append_assoc (print_ℤ p.count) (b')' ∷ []) (b',' ∷ b' ' ∷ rest)) in
    unfold format_participants in
    unfold parse_participants in
    ap (λ t. parse_entry (parse_participants slots) (skip_separators t)) assoc
    ∙ (round ∙ ap (λ r. p ∷ r) (parse_participants_more slots rest))

-- The participants line is read back as it was written: every list of participants with handles of 1 to 63
-- bytes, without an opening parenthesis, a comma or a newline and without a space in front, and
-- with counts in the range of int, if the array has a slot for each.
pub parse_participants-format_participants :
    (slots : ℕ) (parts : List Participant)
    → All IsListable parts
    → length parts ≤ slots
    → parse_participants slots (format_participants parts) ≡ parts
parse_participants-format_participants slots [] h fits =
    unfold format_participants in parse_participants-nil slots
parse_participants-format_participants zero (p ∷ ps) h fits = absurd (omega arith)
parse_participants-format_participants (suc slots) (p ∷ []) (hp, h) fits =
    parse_participants_last slots p hp
parse_participants-format_participants (suc slots) (p ∷ q ∷ ps) (hp, h) fits =
    parse_participants_next slots p q ps hp
    ∙ ap (λ r. p ∷ r) (parse_participants-format_participants slots (q ∷ ps) h (omega arith))
