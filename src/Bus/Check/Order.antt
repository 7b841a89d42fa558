-- ===== src/Bus/Check/Order.antt =====
-- The order of `event_compare`.
use epistemic_framework.Common.{
  ℕ, ◌≤◌, ◌<◌, Bool, true, false, List, [], ◌∷◌, ltb, ◌==◌, if◌then◌else◌, All, All-map, ◌≡◌, ◌⊎◌,
  sym, ◌∙◌, arith, inl, inr, Bool-cases,
}
use epistemic_framework.Common.Int.{pos, leb_ℤ}
use epistemic_framework.Common.Sorting.{
  IsSorted, leb_ℤ_total, leb_ℤ_trans, AtMost, at_most, compared_times, says_first, IsOrder,
}
use epistemic_framework.Bus.Scan.{BusEvent, minus}
use epistemic_framework.Bus.Check.{event_compare}

-- More urgent (a smaller number), or as urgent and not newer.
abbrev pub Precedes : BusEvent → BusEvent → Type 0
Precedes a b =
    (a.priority < b.priority) ⊎ ((a.priority ≡ b.priority) × AtMost a.timestamp_us b.timestamp_us)

abbrev pub IsByUrgency : List BusEvent → Type 0
IsByUrgency [] = Unit
IsByUrgency (e ∷ es) = All (Precedes e) es × IsByUrgency es

abbrev is_before : BusEvent → BusEvent → Bool
is_before a b =
    if a.priority == b.priority
    then leb_ℤ a.timestamp_us b.timestamp_us
    else ltb a.priority b.priority

first_is_before : (a b : BusEvent) → says_first event_compare a b ≡ is_before a b
unfolding event_compare
first_is_before a b = elim (Bool-cases (a.priority == b.priority)) [
  | inr differs ↦ rw differs (by_priority a.priority b.priority differs)
  | inl same ↦ rw same (compared_times a.timestamp_us b.timestamp_us)
]
  where
    by_priority : (m n : ℕ) → (m == n) ≡ false → leb_ℤ (minus m n) (pos 0) ≡ ltb m n
    by_priority m n ne = ground arith

before-Precedes : (a b : BusEvent) → is_before a b ≡ true → Precedes a b
before-Precedes a b h = elim (Bool-cases (a.priority == b.priority)) [
  | inl same ↦
      let older : leb_ℤ a.timestamp_us b.timestamp_us ≡ true = ground (arith, h, same) in
      inr (ground arith, at_most a.timestamp_us b.timestamp_us older)
  | inr differs ↦
      let less : ltb a.priority b.priority ≡ true = ground (arith, h, differs) in inl (ground arith)
]

pub sorted-IsByUrgency :
    (es : List BusEvent) → IsSorted (says_first event_compare) es → IsByUrgency es
sorted-IsByUrgency [] h = tt
sorted-IsByUrgency (e ∷ es) (he, h) = (
  All-map _ (Precedes e) (λ x k. before-Precedes e x (sym (first_is_before e x) ∙ k)) es he,
  sorted-IsByUrgency es h,
)

is_before_total : (a b : BusEvent) → is_before a b ≡ false → is_before b a ≡ true
is_before_total a b h = elim (Bool-cases (a.priority == b.priority)) [
  | inl same ↦
      let same' : (b.priority == a.priority) ≡ true = ground arith in
      let older : leb_ℤ a.timestamp_us b.timestamp_us ≡ false = ground (arith, h, same) in
      rw same' (leb_ℤ_total a.timestamp_us b.timestamp_us older)
  | inr differs ↦ ground (arith, h, differs)
]

not_above : (a b : BusEvent) → is_before a b ≡ true → a.priority ≤ b.priority
not_above a b h = elim (Bool-cases (a.priority == b.priority)) [
  | inl same ↦ ground arith
  | inr differs ↦
      let less : ltb a.priority b.priority ≡ true = ground (arith, h, differs) in ground arith
]

is_before_trans :
    (a b c : BusEvent) → is_before a b ≡ true → is_before b c ≡ true → is_before a c ≡ true
is_before_trans a b c h k = elim (Bool-cases (a.priority == b.priority)) [
  | inl ab ↦ elim (Bool-cases (b.priority == c.priority)) [
    | inl bc ↦
        let ac : (a.priority == c.priority) ≡ true = ground arith in
        let older : leb_ℤ a.timestamp_us b.timestamp_us ≡ true = ground (arith, h, ab) in
        let older' : leb_ℤ b.timestamp_us c.timestamp_us ≡ true = ground (arith, k, bc) in
        rw ac (leb_ℤ_trans a.timestamp_us b.timestamp_us c.timestamp_us older older')
    | inr bc ↦
        let less : ltb b.priority c.priority ≡ true = ground (arith, k, bc) in
        let ac : (a.priority == c.priority) ≡ false = ground arith in rw ac (ground arith)
  ]
  | inr ab ↦
      let less : ltb a.priority b.priority ≡ true = ground (arith, h, ab) in
      let most : b.priority ≤ c.priority = not_above b c k in
      let ac : (a.priority == c.priority) ≡ false = ground arith in rw ac (ground arith)
]

pub event_compare-IsOrder : IsOrder event_compare
event_compare-IsOrder = (
  λ a b h. first_is_before b a ∙ is_before_total a b (sym (first_is_before a b) ∙ h),
  λ a b c h k.
      first_is_before a c
      ∙ is_before_trans a b c (sym (first_is_before a b) ∙ h) (sym (first_is_before b c) ∙ k),
)
