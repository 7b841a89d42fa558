-- ===== src/Bus/Scan.antt =====
-- `scan_events`, `bus_publish_dedup` and the checks on an event's file name in `bus_read` and
-- `bus_ack`. A directory is the list of its entries in the order of `readdir`.
pub mod Append
pub mod Dedup
use epistemic_framework.Common.{
  ℕ, zero, suc, ◌+◌, ◌-◌, Bool, true, false, not, ◌&&◌, ◌||◌, List, [], ◌∷◌, ◌++◌, ltb, leb, ◌==◌,
  if◌then◌else◌, length, take, Bytes, codes, str_eq, Option, none, some, ◌≡◌, refl,
}
use epistemic_framework.Common.Outcome.{Outcome, ok, error, abort, ◌>>◌, assert}
use epistemic_framework.Common.Int.{ℤ, pos, negsuc, leb_ℤ}
use epistemic_framework.Bus.Event.{
  bus_max_handle, bus_max_type, bus_max_filename, Host, EventFile, bus_publish,
  parse_event_filename_timestamp, is_event_name, Fields, read_event_fields, read_event_dedup_key,
}

-- A name in the directory: whether `stat` finds a regular file, and its text if it can be opened.
pub record Entry : Type 0 where
  pub name : Bytes
  pub regular : Bool
  pub text : Option Bytes

pub record BusEvent : Type 0 where
  pub filename : Bytes
  pub source : Bytes
  pub type : Bytes
  pub priority : ℕ
  pub timestamp_us : ℤ

abbrev pub make_event : Bytes → Option ℤ → Option Fields → Option BusEvent
make_event name none _ = none
make_event name (some ts) none = none
make_event name (some ts) (some f) = some (record {
  filename = take (bus_max_filename - 1) name;
  source = f.source;
  type = f.type;
  priority = f.priority;
  timestamp_us = ts;
})

-- The event of an entry; `none` is a `continue`.
unfoldable pub event_of : Entry → Option BusEvent
event_of e =
    if not (is_event_name e.name)
    then none
    else if not e.regular
    then none
    else make_event e.name (parse_event_filename_timestamp e.name)
        (read_event_fields bus_max_handle bus_max_type e.text)

-- One round, with the slots of the array that are left.
abbrev pub scan_entry : Option BusEvent → (ℕ → List BusEvent) → ℕ → List BusEvent
scan_entry o more zero = []
scan_entry none more (suc slots) = more (suc slots)
scan_entry (some event) more (suc slots) = event ∷ more slots

-- `slots` is `max_events`: every caller passes BUS_MAX_EVENTS, and the assertion that it is above 0 is left out.
unfoldable pub scan_events : List Entry → ℕ → List BusEvent
scan_events [] slots = []
scan_events (e ∷ es) slots = scan_entry (event_of e) (scan_events es) slots

-- `current_us - dedup_window_us`
abbrev pub minus : ℕ → ℕ → ℤ
minus a b = if leb b a then pos (a - b) else negsuc (b - a - 1)

abbrev pub key_is : Bytes → Option Bytes → Bool
key_is proposed none = false
key_is proposed (some key) = str_eq proposed key

abbrev pub is_recent : ℤ → Option ℤ → Bool
is_recent cutoff none = false
is_recent cutoff (some ts) = leb_ℤ cutoff ts

unfoldable pub is_duplicate : Bytes → ℤ → Entry → Bool
is_duplicate proposed_key cutoff e =
    is_event_name e.name
    && is_recent cutoff (parse_event_filename_timestamp e.name)
    && e.regular
    && key_is proposed_key (read_event_dedup_key 258 e.text)

unfoldable pub duplicate_found : Bytes → ℤ → List Entry → Bool
duplicate_found proposed_key cutoff [] = false
duplicate_found proposed_key cutoff (e ∷ es) =
    is_duplicate proposed_key cutoff e || duplicate_found proposed_key cutoff es

-- What a publish with a window does: the event is dropped (return code 5), or it is published.
pub data Deduped : Type 0 where
  dropped : Deduped
  passed_on : Outcome EventFile → Deduped

-- `entries` is the directory, `none` if it cannot be opened. The key is cut to its buffer.
unfoldable pub bus_publish_dedup :
    Host → Option (List Entry) → Bytes → Bytes → ℕ → Option Bytes → ℕ → Outcome Deduped
bus_publish_dedup host none source type priority payload window =
    assert (ltb 0 window) >> ok (passed_on (bus_publish host source type priority payload))
bus_publish_dedup host (some entries) source type priority payload window =
    let key = take 257 (source ++ (b':' ∷ type)) in
    assert (ltb 0 window)
    >> ok (
        if duplicate_found key (minus host.now_us window) entries
        then dropped
        else passed_on (bus_publish host source type priority payload))

abbrev pub has_slash : Bytes → Bool
has_slash [] = false
has_slash (c ∷ s) = c == b'/' || has_slash s

-- The check in front of `bus_read` and `bus_ack`: only a bare file name passes.
unfoldable pub is_bare_name : Bytes → Bool
is_bare_name event_file = not (
    length event_file == 0
    || has_slash event_file
    || str_eq event_file (codes "..")
    || str_eq event_file (codes "."))
