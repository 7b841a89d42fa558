-- ===== src/Bus/Tests.antt =====
-- The theorems on the event bus at concrete inputs.
use epistemic_framework.Common.{
  ◌⊎◌, true, false, List, [], ◌∷◌, ◌++◌, take, lacks-Lacks, Bytes, codes, Option, none, some, ◌≡◌,
  refl, arith,
}
use epistemic_framework.Common.Outcome.{ok, error}
use epistemic_framework.Common.Int.{pos}
use epistemic_framework.Common.Fgets.{one_line-IsOneLine}
use epistemic_framework.Bus.Event.{
  bus_max_handle, bus_max_type, has_whitespace, Host, EventFile, bus_publish,
  parse_event_filename_timestamp, is_event_name, read_event_fields, read_event_dedup_key,
}
use epistemic_framework.Bus.Event.Published.{IsName, IsReady, bus_publish-read}
use epistemic_framework.Common.{map}
use epistemic_framework.Common.Sorting.{Reordered, filter}
use epistemic_framework.Bus.Check.{bus_check}
use epistemic_framework.Bus.Check.Order.{IsByUrgency}
use epistemic_framework.Bus.Check.Urgent.{line_of, is_from, bus_check-IsByUrgency}
use epistemic_framework.Bus.Scan.{Entry, BusEvent, scan_events, dropped, bus_publish_dedup}
use epistemic_framework.Bus.Scan.Append.{events_of, entry, published_event, scan_events-bus_publish}
use epistemic_framework.Bus.Scan.Dedup.{bus_publish_dedup-bus_publish}
use epistemic_framework.Bus.Ack.{Directories, find_entry, bus_ack, IsBare, IsMoved, bus_ack_cases}
use epistemic_framework.Bus.Prune.{
  bus_max_events, Processed, PruneEntry, absent, unreadable, opened, collect_entries, bus_prune,
}
use epistemic_framework.Bus.Prune.Oldest.{IsOldestPrune, bus_prune_oldest}
use epistemic_framework.Common.Sorting.{sort_by, sort_by-Sorts}

abbrev stamp : Bytes
stamp = codes "2026-02-01T10:00:00Z"

abbrev pub host : Host
host = record {
  directory = true;
  processed = true;
  written = true;
  now_us = 1769940000000000;
  pid = 4242;
  iso_time = stamp;
}

abbrev soon : Host
soon = record host { now_us = 1769940030000000 }

abbrev worker : Bytes
worker = codes "parser-worker"

abbrev done_type : Bytes
done_type = codes "task-complete"

abbrev payload : Option Bytes
payload = some (codes "source: x\nok")

pub host-IsReady : IsReady host
host-IsReady =
    (refl, refl, refl, omega arith, omega arith, (one_line-IsOneLine stamp refl, omega arith))

worker-IsName : IsName worker
unfolding has_whitespace
worker-IsName = (omega arith, omega arith, lacks-Lacks 0 worker refl, refl)

type-IsName : IsName done_type
unfolding has_whitespace
type-IsName = (omega arith, omega arith, lacks-Lacks 0 done_type refl, refl)

bus_publish-read_example :
    (file : EventFile) × (bus_publish host worker done_type 1 payload ≡ ok file)
    × (is_event_name file.name ≡ true)
    × (parse_event_filename_timestamp file.name ≡ some (pos 1769940000000000))
    × (read_event_fields bus_max_handle bus_max_type (some file.text)
        ≡ some (record { priority = 1; source = worker; type = done_type }))
    × (read_event_dedup_key 258 (some file.text) ≡ some (worker ++ (b':' ∷ done_type)))
bus_publish-read_example =
    bus_publish-read host worker done_type 1 payload host-IsReady worker-IsName type-IsName
      (omega arith)

abbrev other_entry : Entry
other_entry = record { name = codes "processed"; regular = false; text = none }

scan_events-bus_publish_example :
    (file : EventFile) × (bus_publish host worker done_type 1 payload ≡ ok file)
    × (scan_events ((other_entry ∷ []) ++ (entry file ∷ [])) 4096
        ≡ take 4096 (
            events_of (other_entry ∷ [])
            ++ (published_event file.name worker done_type 1 host.now_us ∷ [])))
scan_events-bus_publish_example =
    scan_events-bus_publish host worker done_type 1 payload (other_entry ∷ []) 4096 host-IsReady
      worker-IsName type-IsName (omega arith)

bus_publish_dedup-bus_publish_example :
    (file : EventFile) × (bus_publish host worker done_type 1 payload ≡ ok file)
    × (bus_publish_dedup soon
          (some ((other_entry ∷ []) ++ (entry file ∷ [])))
          worker
          done_type
          3
          none
          60000000
        ≡ ok dropped)
bus_publish_dedup-bus_publish_example =
    bus_publish_dedup-bus_publish host soon worker done_type 1 3 payload none (other_entry ∷ []) []
      60000000 host-IsReady worker-IsName type-IsName (omega arith) (omega arith) (omega arith)

abbrev two_processed : List Processed
two_processed =
    record { name = codes "20-a-b-1.event"; regular = true; size = 700; unlinks = true }
    ∷ record { name = codes "10-a-b-1.event"; regular = true; size = 500; unlinks = true }
    ∷ []

bus_prune_oldest_example :
    (pruned : List PruneEntry × List PruneEntry) × (bus_prune sort_by (opened two_processed) 800
      ≡ ok pruned)
    × IsOldestPrune 800 (collect_entries two_processed bus_max_events) pruned
    × (bus_prune sort_by absent 800 ≡ ok ([], []))
    × (bus_prune sort_by unreadable 800 ≡ error)
bus_prune_oldest_example =
    bus_prune_oldest sort_by sort_by-Sorts two_processed 800 (omega arith) (refl, (refl, tt))

abbrev one_pending : Directories
one_pending = record {
  pending = record { name = codes "10-a-b-1.event"; regular = true; text = some [] } ∷ [];
  processed = [];
}

abbrev acknowledged : Bytes
acknowledged = codes "10-a-b-1.event"

bus_ack_cases_example :
    ((IsBare acknowledged → ⊥) × (bus_ack true true one_pending acknowledged ≡ error))
    ⊎ (IsBare acknowledged
        × (find_entry acknowledged one_pending.pending ≡ none)
        × (bus_ack true true one_pending acknowledged ≡ error))
    ⊎ (IsBare acknowledged
        × ((e : Entry) × (d' : Directories) × (find_entry acknowledged one_pending.pending ≡ some e)
            × (bus_ack true true one_pending acknowledged ≡ ok d')
            × IsMoved acknowledged e one_pending d'))
bus_ack_cases_example = bus_ack_cases one_pending acknowledged

abbrev two_entries : List Entry
two_entries =
    record {
      name = codes "1-a-b-2.event";
      regular = true;
      text = some (codes "priority: low\nsource: a\ntype: b\n");
    }
    ∷ record {
      name = codes "2-a-b-2.event";
      regular = true;
      text = some (codes "priority: high\nsource: a\n");
    }
    ∷ []

bus_check-IsByUrgency_example :
    (es : List BusEvent) × (bus_check sort_by true (some two_entries) 100000000 (some (codes "a"))
      ≡ ok (map (line_of 100000000) es))
    × IsByUrgency es
    × Reordered (filter (is_from (some (codes "a"))) (scan_events two_entries bus_max_events)) es
bus_check-IsByUrgency_example =
    bus_check-IsByUrgency sort_by sort_by-Sorts two_entries 100000000 (some (codes "a"))
