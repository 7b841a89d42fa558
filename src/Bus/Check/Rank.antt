-- ===== src/Bus/Check/Rank.antt =====
-- The events of a scan have a priority from 0 to 3.
use epistemic_framework.Common.{
  ℕ, zero, suc, ◌+◌, ◌≤◌, ◌<◌, not, ◌&&◌, List, [], ◌∷◌, length, All, Bytes, has_prefix, str_eq,
  codes, Option, none, some, ◌≡◌, refl, arith, inl, inr, Bool-cases,
}
use epistemic_framework.Common.Int.{ℤ}
use epistemic_framework.Common.Fgets.{fgets_lines}
use epistemic_framework.Bus.Event.{
  priority_names, priority_from, bus_priority_from_str, field_value, Found, priority_or, read_field,
  read_fields, nothing_found, read_event_fields, is_event_name, parse_event_filename_timestamp,
  bus_max_handle, bus_max_type,
}
use epistemic_framework.Bus.Scan.{Entry, BusEvent, make_event, event_of, scan_entry, scan_events}

priority_from-below :
    (i : ℕ) (names : List Bytes) (s : Bytes) (p : ℕ)
    → priority_from i names s ≡ some p
    → p < i + length names
unfolding priority_from
priority_from-below i [] s p h = absurd (ground arith)
priority_from-below i (name ∷ names) s p h = elim (Bool-cases (str_eq s name)) [
  | inl same ↦ let e : some i ≡ some p = ground (arith, h, same) in ground (arith, e)
  | inr differs ↦
      let later = priority_from-below (i + 1) names s p (ground (arith, h, differs)) in
      omega (arith, later)
]

either_small : (d : ℕ) (o : Option ℕ) → d ≤ 3 → ((p : ℕ) → o ≡ some p → p < 4) → priority_or d o ≤ 3
either_small d none small below = small
either_small d (some p) small below = omega (arith, below p refl)

priority_or-small : (d : ℕ) (s : Bytes) → d ≤ 3 → priority_or d (bus_priority_from_str s) ≤ 3
unfolding bus_priority_from_str
priority_or-small d s small =
    either_small d (bus_priority_from_str s) small (priority_from-below 0 priority_names s)

abbrev IsRanked : Found → Type 0
IsRanked f = f.fields.priority ≤ 3

read_field-IsRanked :
    (m n : ℕ) (f : Found) (line : Bytes) → IsRanked f → IsRanked (read_field m n f line)
unfolding read_field
read_field-IsRanked m n f line h =
    elim (Bool-cases (not f.has_priority && has_prefix (codes "priority: ") line)) [
      | inl at_priority ↦
          rw at_priority (priority_or-small f.fields.priority (field_value 10 line) h)
      | inr no_priority ↦
          elim (Bool-cases (not f.has_source && has_prefix (codes "source: ") line)) [
            | inl at_source ↦ rw (no_priority, at_source) h
            | inr no_source ↦
                elim (Bool-cases (not f.has_type && has_prefix (codes "type: ") line)) [
                  | inl at_type ↦ rw (no_priority, no_source, at_type) h
                  | inr no_type ↦ rw (no_priority, no_source, no_type) h
                ]
          ]
    ]

read_fields-IsRanked :
    (m n : ℕ) (f : Found) (lines : List Bytes) → IsRanked f → IsRanked (read_fields m n f lines)
unfolding read_fields
read_fields-IsRanked m n f [] h = h
read_fields-IsRanked m n f (line ∷ lines) h =
    elim (Bool-cases (f.has_priority && f.has_source && f.has_type)) [
      | inl complete ↦ rw complete h
      | inr more ↦ rw more (
          read_fields-IsRanked m n (read_field m n f line) lines (read_field-IsRanked m n f line h))
    ]

abbrev pub HasRank : BusEvent → Type 0
HasRank e = e.priority ≤ 3

abbrev OnEvent : Option BusEvent → Type 0
OnEvent none = Unit
OnEvent (some e) = HasRank e

make_event-HasRank :
    (name : Bytes) (ts : Option ℤ) (text : Option Bytes)
    → OnEvent (make_event name ts (read_event_fields bus_max_handle bus_max_type text))
unfolding read_event_fields
make_event-HasRank name none text = tt
make_event-HasRank name (some ts) none = tt
make_event-HasRank name (some ts) (some text) =
    read_fields-IsRanked bus_max_handle bus_max_type nothing_found (fgets_lines 512 text)
      (omega arith)

event_of-HasRank : (e : Entry) → OnEvent (event_of e)
unfolding event_of
event_of-HasRank e = elim (Bool-cases (is_event_name e.name)) [
  | inr other ↦ rw other tt
  | inl named ↦ elim (Bool-cases e.regular) [
    | inr special ↦ rw (named, special) tt
    | inl regular ↦
        rw (named, regular)
          (make_event-HasRank e.name (parse_event_filename_timestamp e.name) e.text)
  ]
]

scan_entry-HasRank :
    (o : Option BusEvent) (more : ℕ → List BusEvent) (slots : ℕ)
    → OnEvent o
    → ((n : ℕ) → All HasRank (more n))
    → All HasRank (scan_entry o more slots)
scan_entry-HasRank o more zero h rest = tt
scan_entry-HasRank none more (suc slots) h rest = rest (suc slots)
scan_entry-HasRank (some e) more (suc slots) h rest = (h, rest slots)

pub scan_events-HasRank : (es : List Entry) (slots : ℕ) → All HasRank (scan_events es slots)
unfolding scan_events
scan_events-HasRank [] slots = tt
scan_events-HasRank (e ∷ es) slots =
    scan_entry-HasRank (event_of e) (scan_events es) slots (event_of-HasRank e)
      (λ n. scan_events-HasRank es n)
