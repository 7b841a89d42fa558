-- ===== src/ChatFile/Participants/Update.antt =====
-- What `update_participants` does to the counts, and how long the participants line gets.
use epistemic_framework.Common.{
  ℕ, zero, suc, ◌^◌, ◌-◌, ◌*◌, ◌≤◌, ◌<◌, Bool, true, false, List, [], ◌∷◌, ◌++◌, leb, if◌then◌else◌,
  length, length-append, take, take_whole, All, Bytes, str_eq, str_eq_iff, str_eq_refl, Option,
  none, some, ◌≡◌, ◌≢◌, refl, sym, ◌∙◌, ap, arith, ◌⊎◌, inl, inr, Bool-cases, Option-cases,
}
use epistemic_framework.Common.Int.{ℤ, pos, negsuc}
use epistemic_framework.Common.Decimal.{print_ℤ}
use epistemic_framework.ChatFile.Participants.{
  Participant, increment, bump, bumped_or, add_participant, update_participants, format_entry,
  format_participants, max_handle_len,
}
use epistemic_framework.ChatFile.Participants.RoundTrip.{IsInt, length-print_ℤ}

-- The count that a list of participants keeps for a handle: that of the first entry with it.
abbrev pub count_of : Bytes → List Participant → Option ℤ
count_of handle [] = none
count_of handle (p ∷ ps) =
    let rest = count_of handle ps in if str_eq p.handle handle then some p.count else rest

-- The number behind `z`.
abbrev pub after : ℤ → ℤ
after (pos n) = pos (suc n)
after (negsuc zero) = pos 0
after (negsuc (suc n)) = negsuc n

-- What the sender's count becomes.
abbrev pub one_more : Option ℤ → Option ℤ
one_more none = some (pos 1)
one_more (some z) = some (after z)

-- A count that can go up by one: not INT_MAX.
abbrev pub IsBelowMax : Option ℤ → Type 0
IsBelowMax none = Unit
IsBelowMax (some (pos n)) = n < 2 ^ 31 - 1
IsBelowMax (some (negsuc n)) = Unit

increment-after : (z : ℤ) → IsBelowMax (some z) → increment z ≡ after z
increment-after (pos n) h = ground arith
increment-after (negsuc zero) h = refl
increment-after (negsuc (suc n)) h = refl

-- The list with the sender counted, written in one recursion.
abbrev counted : Bytes → Participant → List Participant → List Participant
counted sender new [] = new ∷ []
counted sender new (p ∷ ps) =
    let rest = counted sender new ps in
    if str_eq p.handle sender then record p { count = increment p.count } ∷ ps else p ∷ rest

-- The search fails exactly for a handle that no entry has.
abbrev pub is_listed {ℓ} : {A : Type ℓ} → Option A → Bool
is_listed none = false
is_listed (some _) = true

is_listed-bump :
    (sender : Bytes) (ps : List Participant)
    → is_listed (bump sender ps) ≡ is_listed (count_of sender ps)
unfolding bump
is_listed-bump sender [] = refl
is_listed-bump sender (p ∷ ps) = elim (Bool-cases (str_eq p.handle sender)) [
  | inl same ↦ rw same
  | inr other ↦ elim (Option-cases (bump sender ps)) [
    | inl missing ↦
        let ih : false ≡ is_listed (count_of sender ps) =
          rw missing at (is_listed-bump sender ps) in
        rw (other, missing) ih
    | inr (ps', found) ↦
        let ih : true ≡ is_listed (count_of sender ps) = rw found at (is_listed-bump sender ps) in
        rw (other, found) ih
  ]
]

bump-counted :
    (sender : Bytes) (new : Participant) (ps : List Participant)
    → bumped_or (ps ++ (new ∷ [])) (bump sender ps) ≡ counted sender new ps
unfolding bump
bump-counted sender new [] = refl
bump-counted sender new (p ∷ ps) = elim (Bool-cases (str_eq p.handle sender)) [
  | inl same ↦ rw same
  | inr other ↦ elim (Option-cases (bump sender ps)) [
    | inl missing ↦
        let ih : bumped_or (ps ++ (new ∷ [])) none ≡ counted sender new ps =
          rw missing at (bump-counted sender new ps) in
        rw (other, missing) (ap (λ r. p ∷ r) ih)
    | inr (ps', found) ↦
        let ih : bumped_or (ps ++ (new ∷ [])) (some ps') ≡ counted sender new ps =
          rw found at (bump-counted sender new ps) in
        rw (other, found) (ap (λ r. p ∷ r) ih)
  ]
]

counted_sender :
    (sender : Bytes) (ps : List Participant)
    → IsBelowMax (count_of sender ps)
    → count_of sender (counted sender (record { handle = sender; count = pos 1 }) ps)
      ≡ one_more (count_of sender ps)
counted_sender sender [] below = rw (str_eq_refl sender)
counted_sender sender (p ∷ ps) below = elim (Bool-cases (str_eq p.handle sender)) [
  | inl same ↦ rw (same, same) (ap some (increment-after p.count (rw same at below)))
  | inr other ↦ rw (other, other) (counted_sender sender ps (rw other at below))
]

counted_other :
    (sender other : Bytes) (ps : List Participant)
    → str_eq sender other ≡ false
    → count_of other (counted sender (record { handle = sender; count = pos 1 }) ps)
      ≡ count_of other ps
counted_other sender other [] ne = rw ne
counted_other sender other (p ∷ ps) ne = elim (Bool-cases (str_eq p.handle sender)) [
  | inl same ↦
      let p_ne : str_eq p.handle other ≡ false = rw ((str_eq_iff p.handle sender).0 same) ne in
      rw (same, p_ne)
  | inr differs ↦ rw differs (
      ap (λ r. if str_eq p.handle other then some p.count else r)
        (counted_other sender other ps ne))
]

-- With room for one more entry, or with an entry for the sender, the list is the counted one.
update_participants-counted :
    (parts : List Participant) (sender : Bytes) (max_parts : ℕ)
    → length sender < max_handle_len
    → (length parts < max_parts) ⊎ (is_listed (count_of sender parts) ≡ true)
    → update_participants parts sender max_parts
      ≡ counted sender (record { handle = sender; count = pos 1 }) parts
unfolding update_participants add_participant
update_participants-counted parts sender max_parts short room =
    let new : Participant = record { handle = sender; count = pos 1 } in
    let whole : take (max_handle_len - 1) sender ≡ sender = take_whole 63 sender (omega arith) in
    let all = bump-counted sender new parts in
    let found = is_listed-bump sender parts in
    elim (Option-cases (bump sender parts)) [
      | inl missing ↦
          let not_listed : false ≡ is_listed (count_of sender parts) = rw missing at found in
          let free : leb max_parts (length parts) ≡ false = ground arith in
          let all' : parts ++ (new ∷ []) ≡ counted sender new parts = rw missing at all in
          rw (missing, free, whole) all'
      | inr (ps', e) ↦ let all' : ps' ≡ counted sender new parts = rw e at all in rw e all'
    ]

update_participants_full :
    (parts : List Participant) (sender : Bytes) (max_parts : ℕ)
    → max_parts ≤ length parts
    → is_listed (count_of sender parts) ≡ false
    → update_participants parts sender max_parts ≡ parts
unfolding update_participants add_participant
update_participants_full parts sender max_parts full missing =
    let found : is_listed (bump sender parts) ≡ false = is_listed-bump sender parts ∙ missing in
    let none_left : leb max_parts (length parts) ≡ true = ground arith in
    elim (Option-cases (bump sender parts)) [
      | inl e ↦ rw (e, none_left)
      | inr (ps', e) ↦ absurd (ground (arith, rw e at found))
    ]

str_eq-false : (a b : Bytes) → b ≢ a → str_eq a b ≡ false
str_eq-false a b ne = elim (Bool-cases (str_eq a b)) [
  | inl e ↦ absurd (ne (sym ((str_eq_iff a b).0 e)))
  | inr e ↦ e
]

has_room :
    (parts : List Participant) (sender : Bytes) (max_parts : ℕ)
    → ((length parts < max_parts) ⊎ (is_listed (count_of sender parts) ≡ true))
      ⊎ ((max_parts ≤ length parts) × (is_listed (count_of sender parts) ≡ false))
has_room parts sender max_parts = elim (Bool-cases (is_listed (count_of sender parts))) [
  | inl listed ↦ inl (inr listed)
  | inr missing ↦ elim (Bool-cases (leb max_parts (length parts))) [
    | inl full ↦ inr (ground arith, missing)
    | inr free ↦ inl (inl (ground arith))
  ]
]

-- What the list says after a send, for a handle of at most 63 bytes and a count of the sender below INT_MAX. Either the array has a free slot
-- or the sender is in the list, and then the sender's count is one more than before (1 for a new
-- sender) and the counts of all other handles are as before; or there is no free slot and the sender is not in the
-- list, and the list is as before.
pub update_participants_cases :
    (parts : List Participant) (sender : Bytes) (max_parts : ℕ)
    → length sender < max_handle_len
    → IsBelowMax (count_of sender parts)
    → (((length parts < max_parts) ⊎ (is_listed (count_of sender parts) ≡ true))
        × (count_of sender (update_participants parts sender max_parts)
            ≡ one_more (count_of sender parts))
        × ((other : Bytes)
            → other ≢ sender
            → count_of other (update_participants parts sender max_parts) ≡ count_of other parts))
      ⊎ ((max_parts ≤ length parts)
          × (is_listed (count_of sender parts) ≡ false)
          × (update_participants parts sender max_parts ≡ parts))
update_participants_cases parts sender max_parts short below =
    elim (has_room parts sender max_parts) [
      | inl room ↦
          let e = update_participants-counted parts sender max_parts short room in
          inl (
            room,
            rw e (counted_sender sender parts below),
            λ other ne. rw e (counted_other sender other parts (str_eq-false sender other ne)),
          )
      | inr (full, missing) ↦
          inr (full, missing, update_participants_full parts sender max_parts full missing)
    ]

-- One entry of the line: at most 63 bytes, a parenthesis, at most 11 bytes, a parenthesis.
length-format_entry :
    (p : Participant)
    → length p.handle < max_handle_len
    → IsInt p.count
    → length (format_entry p) ≤ 76
length-format_entry p h i = omega (
  arith,
  length-append p.handle (b'(' ∷ (print_ℤ p.count ++ (b')' ∷ []))),
  length-append (print_ℤ p.count) (b')' ∷ []),
  (length-print_ℤ p.count i).1,
)

abbrev pub IsBounded : Participant → Type 0
IsBounded p = (length p.handle < max_handle_len) × IsInt p.count

pub length-format_participants :
    (ps : List Participant) → All IsBounded ps → length (format_participants ps) ≤ 78 * length ps
unfolding format_participants
length-format_participants [] h = omega arith
length-format_participants (p ∷ []) ((l, i), _) = omega (arith, length-format_entry p l i)
length-format_participants (p ∷ q ∷ ps) ((l, i), h) = omega (
  arith,
  length-format_entry p l i,
  length-append (format_entry p) (b',' ∷ b' ' ∷ format_participants (q ∷ ps)),
  length-format_participants (q ∷ ps) h,
)
