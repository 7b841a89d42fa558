-- ===== src/Bus/Scan/Append.antt =====
-- What a scan finds after a publish.
use epistemic_framework.Common.{
  ℕ, zero, suc, ◌-◌, ◌≤◌, true, List, [], ◌∷◌, ◌++◌, take, take-nil, Bytes, Option, none, some, ◌≡◌,
  refl, sym, ◌∙◌, ap,
}
use epistemic_framework.Common.Int.{pos}
use epistemic_framework.Common.Outcome.{ok}
use epistemic_framework.Bus.Event.{
  bus_max_handle, bus_max_type, bus_max_filename, Host, EventFile, bus_publish,
  parse_event_filename_timestamp, is_event_name, read_event_fields,
}
use epistemic_framework.Bus.Event.Published.{IsName, IsReady, bus_publish-read}
use epistemic_framework.Bus.Scan.{Entry, BusEvent, event_of, scan_entry, scan_events}

-- The events of all entries, with no bound.
abbrev pub events_of : List Entry → List BusEvent
events_of [] = []
events_of (e ∷ es) = scan_entry (event_of e) (λ _. events_of es) 1

scan_entry-take :
    (o : Option BusEvent) (all : List BusEvent) (more : ℕ → List BusEvent) (slots : ℕ)
    → ((n : ℕ) → more n ≡ take n all)
    → scan_entry o more slots ≡ take slots (scan_entry o (λ _. all) 1)
scan_entry-take none all more zero h = refl
scan_entry-take (some e) all more zero h = refl
scan_entry-take none all more (suc slots) h = h (suc slots)
scan_entry-take (some e) all more (suc slots) h = ap (λ r. e ∷ r) (h slots)

-- A scan lists the events of the directory in the order of `readdir`, as many as the array holds.
pub scan_events-take :
    (es : List Entry) (slots : ℕ) → scan_events es slots ≡ take slots (events_of es)
unfolding scan_events
scan_events-take [] slots = sym (take-nil slots)
scan_events-take (e ∷ es) slots =
    scan_entry-take (event_of e) (events_of es) (scan_events es) slots (scan_events-take es)

put-append :
    (o : Option BusEvent) (a b : List BusEvent)
    → scan_entry o (λ _. a ++ b) 1 ≡ scan_entry o (λ _. a) 1 ++ b
put-append none a b = refl
put-append (some e) a b = refl

events_of-append :
    (es : List Entry) (e : Entry) (event : BusEvent)
    → event_of e ≡ some event
    → events_of (es ++ (e ∷ [])) ≡ events_of es ++ (event ∷ [])
events_of-append [] e event h = rw h refl
events_of-append (x ∷ es) e event h =
    ap (λ r. scan_entry (event_of x) (λ _. r) 1) (events_of-append es e event h)
    ∙ put-append (event_of x) (events_of es) (event ∷ [])

-- The entry of a file that was renamed to its final name.
abbrev pub entry : EventFile → Entry
entry file = record { name = file.name; regular = true; text = some file.text }

abbrev pub published_event : Bytes → Bytes → Bytes → ℕ → ℕ → BusEvent
published_event name source type priority now = record {
  filename = take (bus_max_filename - 1) name;
  source = source;
  type = type;
  priority = priority;
  timestamp_us = pos now;
}

event_of-entry :
    (file : EventFile) (source type : Bytes) (priority now : ℕ)
    → is_event_name file.name ≡ true
    → parse_event_filename_timestamp file.name ≡ some (pos now)
    → read_event_fields bus_max_handle bus_max_type (some file.text)
      ≡ some (record { priority = priority; source = source; type = type })
    → event_of (entry file) ≡ some (published_event file.name source type priority now)
event_of-entry file source type priority now name time fields =
    unfold event_of in rw (name, time, fields)

-- A publish on a host on which nothing fails, of a source and a type of 1 to 127 bytes without white
-- space and a priority from 0 to 3: a scan of the directory with the new file behind the old entries lists the
-- events of the old entries and then the new one with its priority, source, type and time, as many
-- as the array holds.
pub scan_events-bus_publish :
    (host : Host) (source type : Bytes) (priority : ℕ) (payload : Option Bytes) (es : List Entry)
    (slots : ℕ)
    → IsReady host
    → IsName source
    → IsName type
    → priority ≤ 3
    → (file : EventFile) × (bus_publish host source type priority payload ≡ ok file)
      × (scan_events (es ++ (entry file ∷ [])) slots
          ≡ take slots
              (events_of es ++ (published_event file.name source type priority host.now_us ∷ [])))
scan_events-bus_publish host source type priority payload es slots ready hs ht hp =
    let (file, done, name, time, fields, _) =
      bus_publish-read host source type priority payload ready hs ht hp in
    let event = event_of-entry file source type priority host.now_us name time fields in
    (
      file,
      done,
      scan_events-take (es ++ (entry file ∷ [])) slots
          ∙ ap (take slots) (events_of-append es (entry file) _ event),
    )
