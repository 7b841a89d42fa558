-- ===== src/Bus/Check.antt =====
-- `bus_check`: the pending events by urgency. `qsort` is a parameter of the model.
pub mod Rank
pub mod Order
pub mod Urgent
use epistemic_framework.Common.{
  ℕ, zero, suc, ◌+◌, not, ◌/◌, Bool, true, false, List, [], ◌∷◌, ◌++◌, ltb, leb, ◌==◌,
  if◌then◌else◌, length, get_or, Bytes, codes, str_eq, Option, none, some,
}
use epistemic_framework.Common.Outcome.{Outcome, ok, error, ◌>>=◌, ◌>>◌, require}
use epistemic_framework.Common.Int.{ℤ, pos, negsuc, leb_ℤ, is_less}
use epistemic_framework.Common.Decimal.{print_ℕ}
use epistemic_framework.Bus.Event.{priority_names, bus_priority_to_str}
use epistemic_framework.Bus.Scan.{Entry, BusEvent, minus, scan_events}
use epistemic_framework.Bus.Prune.{bus_max_events}

unfoldable pub event_compare : BusEvent → BusEvent → ℤ
event_compare a b =
    if not (a.priority == b.priority)
    then minus a.priority b.priority
    else if is_less a.timestamp_us b.timestamp_us
    then negsuc 0
    else if is_less b.timestamp_us a.timestamp_us
    then pos 1
    else pos 0

-- `current_us - timestamp_us`
abbrev pub time_since : ℕ → ℤ → ℤ
time_since current_us (pos t) = minus current_us t
time_since current_us (negsuc t) = pos (current_us + t + 1)

-- `delta_us / 1000000`, at least 0.
abbrev pub age_seconds : ℤ → ℕ
age_seconds (pos n) = n / 1000000
age_seconds (negsuc n) = 0

unfoldable pub format_age : ℤ → Bytes
format_age delta_us =
    let seconds = age_seconds delta_us in
    if ltb seconds 60
    then print_ℕ seconds ++ codes "s ago"
    else if ltb seconds 3600
    then print_ℕ (seconds / 60) ++ codes "m ago"
    else if ltb seconds 86400
    then print_ℕ (seconds / 3600) ++ codes "h ago"
    else print_ℕ (seconds / 86400) ++ codes "d ago"

-- An empty handle is none.
abbrev pub is_wanted : Option Bytes → BusEvent → Bool
is_wanted none e = true
is_wanted (some []) e = true
is_wanted (some (c ∷ s)) e = str_eq e.source (c ∷ s)

abbrev pub event_line : Bytes → Bytes → Bytes → Bytes
event_line priority filename age =
    codes "[" ++ (priority ++ (codes "] " ++ (filename ++ (codes " (" ++ (age ++ codes ")\n")))))

unfoldable pub print_events : ℕ → Option Bytes → List BusEvent → Outcome (List Bytes)
print_events current_us handle [] = ok []
print_events current_us handle (e ∷ es) =
    let rest = print_events current_us handle es in
    let age = format_age (time_since current_us e.timestamp_us) in
    if is_wanted handle e
    then (bus_priority_to_str e.priority >>= λ priority.
        rest >>= λ lines. ok (event_line priority e.filename age ∷ lines))
    else rest

-- `qsort` gets the comparison function.
module _ (qsort : (BusEvent → BusEvent → ℤ) → List BusEvent → List BusEvent) where
  -- `entries` is the directory, `none` if it cannot be opened. `current_us` is the clock.
  unfoldable pub bus_check : Bool → Option (List Entry) → ℕ → Option Bytes → Outcome (List Bytes)
  bus_check directory none current_us handle = error
  bus_check directory (some entries) current_us handle =
      let events = scan_events entries bus_max_events in
      require directory
      >> (if length events == 0
          then ok []
          else print_events current_us handle (qsort event_compare events))
