-- ===== src/Bus/Prune.antt =====
-- `bus_prune`: the scan of `processed/`, and the loop that deletes the oldest events. `qsort` is a
-- parameter of the model.
pub mod Oldest
use epistemic_framework.Common.{
  ℕ, zero, suc, ◌+◌, ◌-◌, ◌≤◌, ◌<◌, Bool, true, false, not, ◌&&◌, List, [], ◌∷◌, ◌++◌, append_assoc,
  ltb, leb, if◌then◌else◌, length, All, Bytes, Option, none, some, ◌≡◌, refl, sym, ◌∙◌, ap, arith,
  ◌⊎◌, inl, inr, Bool-cases,
}
use epistemic_framework.Common.Outcome.{Outcome, ok, error, ◌>>◌, assert}
use epistemic_framework.Common.Int.{ℤ, pos, leb_ℤ, negsuc, is_less}
use epistemic_framework.Bus.Event.{parse_event_filename_timestamp, is_event_name}

abbrev pub bus_max_events : ℕ
bus_max_events = 4096

-- A name in `processed/` with what `stat` gives of it, and whether `unlink` will succeed.
pub record Processed : Type 0 where
  pub name : Bytes
  pub regular : Bool
  pub size : ℕ
  pub unlinks : Bool

pub record PruneEntry : Type 0 where
  pub filename : Bytes
  pub timestamp_us : ℤ
  pub size : ℕ
  pub unlinks : Bool

unfoldable pub prune_compare : PruneEntry → PruneEntry → ℤ
prune_compare a b =
    if is_less a.timestamp_us b.timestamp_us
    then negsuc 0
    else if is_less b.timestamp_us a.timestamp_us
    then pos 1
    else pos 0

abbrev pub make_prune_entry : Processed → Option ℤ → Option PruneEntry
make_prune_entry e none = none
make_prune_entry e (some ts) =
    some (record { filename = e.name; timestamp_us = ts; size = e.size; unlinks = e.unlinks })

unfoldable pub prune_entry_of : Processed → Option PruneEntry
prune_entry_of e =
    if is_event_name e.name && e.regular
    then make_prune_entry e (parse_event_filename_timestamp e.name)
    else none

abbrev pub collect_entry : Option PruneEntry → (ℕ → List PruneEntry) → ℕ → List PruneEntry
collect_entry o more zero = []
collect_entry none more (suc slots) = more (suc slots)
collect_entry (some e) more (suc slots) = e ∷ more slots

unfoldable pub collect_entries : List Processed → ℕ → List PruneEntry
collect_entries [] slots = []
collect_entries (e ∷ es) slots = collect_entry (prune_entry_of e) (collect_entries es) slots

abbrev pub total_size : List PruneEntry → ℕ
total_size [] = 0
total_size (e ∷ es) = e.size + total_size es

-- The loop over the sorted entries: what is deleted, and what is left, in their order. `total` is the size
-- that is still counted.
unfoldable pub prune_loop : ℕ → ℕ → List PruneEntry → List PruneEntry × List PruneEntry
prune_loop max_bytes total [] = ([], [])
prune_loop max_bytes total (e ∷ es) =
    let (gone, left) = prune_loop max_bytes (if e.unlinks then total - e.size else total) es in
    if ltb max_bytes total
    then (if e.unlinks then (e ∷ gone, left) else (gone, e ∷ left))
    else ([], e ∷ es)

-- The directory `processed/`: `stat` does not find it, `opendir` fails, or what it holds.
pub data Folder : Type 0 where
  absent : Folder
  unreadable : Folder
  opened : List Processed → Folder

-- `qsort` gets the comparison function.
module _ (qsort : (PruneEntry → PruneEntry → ℤ) → List PruneEntry → List PruneEntry) where
  -- What is deleted, and what is left of the scanned entries.
  unfoldable pub prune_processed : List Processed → ℕ → List PruneEntry × List PruneEntry
  prune_processed processed max_bytes =
      let entries = collect_entries processed bus_max_events in
      let total = total_size entries in
      if leb total max_bytes
      then ([], entries)
      else prune_loop max_bytes total (qsort prune_compare entries)

  abbrev pub prune_folder : Folder → ℕ → Outcome (List PruneEntry × List PruneEntry)
  prune_folder absent max_bytes = ok ([], [])
  prune_folder unreadable max_bytes = error
  prune_folder (opened processed) max_bytes = ok (prune_processed processed max_bytes)

  unfoldable pub bus_prune : Folder → ℕ → Outcome (List PruneEntry × List PruneEntry)
  bus_prune folder max_bytes = assert (ltb 0 max_bytes) >> prune_folder folder max_bytes
