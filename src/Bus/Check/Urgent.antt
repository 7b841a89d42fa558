-- ===== src/Bus/Check/Urgent.antt =====
-- The events are listed by urgency.
use epistemic_framework.Common.{
  ℕ, zero, suc, ◌+◌, ◌-◌, ◌/◌, ◌++◌, ◌||◌, ◌≤◌, Bool, true, false, List, map, [], ◌∷◌, leb, ltb,
  ◌==◌, if◌then◌else◌, length, All, Bytes, str_eq, str_eq_iff, ne_of_str_eq, codes, Option, none,
  some, ◌≡◌, refl, sym, ◌∙◌, ap, arith, inl, inr, Bool-cases,
}
use epistemic_framework.Common.Outcome.{ok}
use epistemic_framework.Common.Int.{ℤ, pos, negsuc}
use epistemic_framework.Common.Decimal.{print_ℕ}
use epistemic_framework.Common.Sorting.{
  Reordered, none_left, All-Reordered, filter, filter-Reordered, filter-IsSorted, Sorts, says_first,
}
use epistemic_framework.Bus.Event.{bus_priority_to_str}
use epistemic_framework.Bus.Scan.{Entry, BusEvent, scan_events}
use epistemic_framework.Bus.Prune.{bus_max_events}
use epistemic_framework.Bus.Check.{
  is_wanted, event_compare, time_since, age_seconds, format_age, print_events, bus_check,
}
use epistemic_framework.Bus.Check.Rank.{HasRank, scan_events-HasRank}
use epistemic_framework.Bus.Check.Order.{IsByUrgency, sorted-IsByUrgency, event_compare-IsOrder}

no_items : (es : List BusEvent) → length es ≡ 0 → es ≡ []
no_items [] h = refl
no_items (e ∷ es) h = absurd (omega arith)

-- The seconds since a time in microseconds, and none since a time to come.
abbrev pub seconds_since : ℕ → ℤ → ℕ
seconds_since now (pos t) = (now - t) / 1000000
seconds_since now (negsuc t) = (now + t + 1) / 1000000

-- An age in the first of the units that it reaches, or in seconds.
abbrev pub in_units : ℕ → List (ℕ × Bytes) → Bytes
in_units seconds [] = print_ℕ seconds ++ codes "s ago"
in_units seconds ((size, name) ∷ units) =
    if leb size seconds then print_ℕ (seconds / size) ++ name else in_units seconds units

abbrev pub units : List (ℕ × Bytes)
units = (86400, codes "d ago") ∷ (3600, codes "h ago") ∷ (60, codes "m ago") ∷ []

abbrev pub urgency : ℕ → Bytes
urgency zero = codes "critical"
urgency (suc zero) = codes "high"
urgency (suc (suc zero)) = codes "normal"
urgency (suc (suc (suc n))) = codes "low"

-- The line of an event.
abbrev pub line_of : ℕ → BusEvent → Bytes
line_of now e =
    codes "["
    ++ (urgency e.priority
        ++ (codes "] "
            ++ (e.filename
                ++ (codes " ("
                    ++ (in_units (seconds_since now e.timestamp_us) units ++ codes ")\n")))))

-- An event from the source that is asked for: any, if none or an empty one is.
abbrev pub is_from : Option Bytes → BusEvent → Bool
is_from none e = true
is_from (some handle) e = length handle == 0 || str_eq handle e.source

format_age-units : (delta : ℤ) → format_age delta ≡ in_units (age_seconds delta) units
unfolding format_age
format_age-units delta =
    let seconds = age_seconds delta in
    elim (Bool-cases (leb 60 seconds)) [
      | inr few ↦
          let (a, b, c) : (ltb seconds 60 ≡ true)
              × (leb 3600 seconds ≡ false)
              × (leb 86400 seconds ≡ false) =
            (ground arith, ground arith, ground arith) in
          rw (a, b, c, few) refl
      | inl minutes ↦ elim (Bool-cases (leb 3600 seconds)) [
        | inr few ↦
            let (a, b, c) : (ltb seconds 60 ≡ false)
                × (ltb seconds 3600 ≡ true)
                × (leb 86400 seconds ≡ false) =
              (ground arith, ground arith, ground arith) in
            rw (a, b, c, few, minutes) refl
        | inl hours ↦
            let (a, b) : (ltb seconds 60 ≡ false) × (ltb seconds 3600 ≡ false) =
              (ground arith, ground arith) in
            elim (Bool-cases (leb 86400 seconds)) [
              | inr few ↦
                  let c : ltb seconds 86400 ≡ true = ground arith in rw (a, b, c, few, hours) refl
              | inl days ↦
                  let c : ltb seconds 86400 ≡ false = ground arith in rw (a, b, c, days) refl
            ]
      ]
    ]

age_seconds-since : (now : ℕ) (ts : ℤ) → age_seconds (time_since now ts) ≡ seconds_since now ts
age_seconds-since now (pos t) = elim (Bool-cases (leb t now)) [
  | inl past ↦ rw past refl
  | inr ahead ↦ let none_left_over : now - t ≡ 0 = ground arith in rw (ahead, none_left_over) refl
]
age_seconds-since now (negsuc t) = refl

str_eq_swap : (a b : Bytes) → str_eq a b ≡ str_eq b a
str_eq_swap a b = elim (Bool-cases (str_eq b a)) [
  | inl same ↦ (str_eq_iff a b).1 (sym ((str_eq_iff b a).0 same)) ∙ sym same
  | inr differs ↦ elim (Bool-cases (str_eq a b)) [
    | inl same ↦ absurd (ne_of_str_eq b a differs (sym ((str_eq_iff a b).0 same)))
    | inr differs' ↦ differs' ∙ sym differs
  ]
]

is_wanted-from : (handle : Option Bytes) (e : BusEvent) → is_wanted handle e ≡ is_from handle e
is_wanted-from none e = refl
is_wanted-from (some []) e = refl
is_wanted-from (some (c ∷ s)) e =
    let nonempty : (length (c ∷ s) == 0) ≡ false = ground arith in
    rw nonempty (str_eq_swap e.source (c ∷ s))

named : (p : ℕ) → p ≤ 3 → bus_priority_to_str p ≡ ok (urgency p)
unfolding bus_priority_to_str
named zero h = refl
named (suc zero) h = refl
named (suc (suc zero)) h = refl
named (suc (suc (suc zero))) h = refl
named (suc (suc (suc (suc n)))) h = absurd (omega arith)

print_events-map :
    (now : ℕ) (handle : Option Bytes) (es : List BusEvent)
    → All HasRank es
    → print_events now handle es ≡ ok (map (line_of now) (filter (is_from handle) es))
unfolding print_events
print_events-map now handle [] h = refl
print_events-map now handle (e ∷ es) (rank, h) =
    let rest = print_events-map now handle es h in
    let wants = is_wanted-from handle e in
    let age =
      format_age-units (time_since now e.timestamp_us)
      ∙ ap (λ s. in_units s units) (age_seconds-since now e.timestamp_us) in
    elim (Bool-cases (is_from handle e)) [
      | inl wanted ↦ rw (wants, wanted, named e.priority rank, rest, age) refl
      | inr left_out ↦ rw (wants, left_out, rest) refl
    ]

-- For a `qsort` that sorts by a comparison function that is an order, in a directory that is there: the listed events are those of the
-- scan from the source that was asked for, if one was, each once; more urgent ones stand in front, and older ones in front
-- of newer ones of the same priority. The line of each has the name of its priority, its file name and the time since its timestamp
-- in days, hours, minutes or seconds; no assertion fires.
pub bus_check-IsByUrgency :
    (qsort : (BusEvent → BusEvent → ℤ) → List BusEvent → List BusEvent) (sorts : Sorts qsort)
    (entries : List Entry) (now : ℕ) (handle : Option Bytes)
    → (es : List BusEvent) × (bus_check qsort true (some entries) now handle
        ≡ ok (map (line_of now) es))
      × IsByUrgency es
      × Reordered (filter (is_from handle) (scan_events entries bus_max_events)) es
bus_check-IsByUrgency qsort sorts entries now handle =
    let events = scan_events entries bus_max_events in
    let (reordered, sorted) = sorts event_compare event_compare-IsOrder events in
    let ranked = All-Reordered HasRank reordered (scan_events-HasRank entries bus_max_events) in
    elim (Bool-cases (length events == 0)) [
      | inl empty ↦
          let none_there : events ≡ [] = no_items events (ground arith) in
          ([], (unfold bus_check in rw empty refl), tt, rw none_there none_left)
      | inr filled ↦ (
        filter (is_from handle) (qsort event_compare events),
        (unfold bus_check in
            rw (filled, print_events-map now handle (qsort event_compare events) ranked) refl),
        sorted-IsByUrgency _ (
            filter-IsSorted (says_first event_compare) (is_from handle) (qsort event_compare events)
              sorted),
        filter-Reordered (is_from handle) reordered,
      )
    ]
