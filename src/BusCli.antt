-- ===== src/BusCli.antt =====
-- src/nbs-bus/main.c: `publish` and `prune` of nbs-bus, from the arguments to the exit code.
pub mod Delivered
mod Tests
use epistemic_framework.Common.Int.{ℤ}
use epistemic_framework.Common.{
  ℕ, zero, suc, ◌+◌, ◌*◌, ◌/◌, ◌≤◌, Bool, true, false, not, ◌||◌, List, [], ◌∷◌, ltb, leb,
  if◌then◌else◌, length, drop, Bytes, codes, has_prefix, str_eq, Option, none, some,
}
use epistemic_framework.Common.Outcome.{Outcome, ok, error, abort, ◌>>=◌, ◌>>◌, assert}
use epistemic_framework.Bus.Event.{
  has_whitespace, bus_priority_from_str, Host, EventFile, bus_publish,
}
use epistemic_framework.Bus.Scan.{Entry, Deduped, dropped, passed_on, bus_publish_dedup}
use epistemic_framework.Bus.Prune.{PruneEntry, Folder, bus_prune}
use epistemic_framework.Bus.Config.{BusConfig, max_seconds, whole_number, bus_load_config}

abbrev pub bus_max_path : ℕ
bus_max_path = 4096

-- What `stat` finds at the path of the events directory.
pub data DirState : Type 0 where
  missing : DirState
  not_directory : DirState
  directory : DirState

-- The events directory: its state, its config.yaml, what it holds, and the host.
pub record BusMachine : Type 0 where
  pub dir_state : DirState
  pub config : Option Bytes
  pub entries : Option (List Entry)
  pub host : Host

-- The exit code of a command that publishes nothing, or the new event (exit code 0).
pub data Published : Type 0 where
  exits : ℕ → Published
  published : EventFile → Published

abbrev dir_code : DirState → ℕ
dir_code missing = 2
dir_code not_directory = 2
dir_code directory = 0

unfoldable pub verify_events_dir : DirState → Bytes → ℕ
verify_events_dir state dir = if leb bus_max_path (length dir) then 4 else dir_code state

unfoldable pub is_valid_name : Bytes → Bool
is_valid_name [] = false
is_valid_name (c ∷ s) = not (has_whitespace (c ∷ s))

abbrev window_us : Option ℕ → Option ℕ
window_us none = none
window_us (some n) = if leb n max_seconds then some (n * 1000000) else none

-- `none` is an invalid value; the first option counts.
unfoldable pub parse_dedup_window_opt : List Bytes → ℕ → Option ℕ
parse_dedup_window_opt [] cfg_default_us = some cfg_default_us
parse_dedup_window_opt (arg ∷ args) cfg_default_us =
    if has_prefix (codes "--dedup-window=") arg
    then window_us (whole_number (drop 15 arg))
    else parse_dedup_window_opt args cfg_default_us

abbrev positive : Option ℕ → Option ℕ
positive none = none
positive (some zero) = none
positive (some (suc n)) = some (suc n)

unfoldable pub parse_max_bytes_opt : List Bytes → ℕ → Option ℕ
parse_max_bytes_opt [] cfg_default = some cfg_default
parse_max_bytes_opt (arg ∷ args) cfg_default =
    if has_prefix (codes "--max-bytes=") arg
    then positive (whole_number (drop 12 arg))
    else parse_max_bytes_opt args cfg_default

-- The first argument behind the priority, if it is no option.
abbrev payload_of : List Bytes → Option Bytes
payload_of [] = none
payload_of (arg ∷ args) = if has_prefix (codes "--") arg then none else some arg

-- A failed publish gives 1.
abbrev after_publish : Outcome EventFile → Outcome Published
after_publish (ok file) = ok (published file)
after_publish error = ok (exits 1)
after_publish abort = abort

abbrev after_dedup : Outcome Deduped → Outcome Published
after_dedup (ok dropped) = ok (exits 5)
after_dedup (ok (passed_on result)) = after_publish result
after_dedup error = ok (exits 1)
after_dedup abort = abort

abbrev with_window : BusMachine → Bytes → Bytes → ℕ → Option Bytes → Option ℕ → Outcome Published
with_window w source type priority payload none = ok (exits 4)
with_window w source type priority payload (some window) =
    if ltb 0 window
    then after_dedup (bus_publish_dedup w.host w.entries source type priority payload window)
    else after_publish (bus_publish w.host source type priority payload)

abbrev with_priority : BusMachine → Bytes → Bytes → List Bytes → Option ℕ → Outcome Published
with_priority w source type rest none = ok (exits 4)
with_priority w source type rest (some priority) =
    let cfg = bus_load_config w.config in
    assert (leb priority 3)
    >> assert (leb cfg.dedup_window_s max_seconds)
    >> with_window w source type priority (payload_of rest)
        (parse_dedup_window_opt rest (cfg.dedup_window_s * 1000000))

abbrev with_dir : BusMachine → Bytes → Bytes → Bytes → List Bytes → ℕ → Outcome Published
with_dir w source type priority_str rest zero =
    with_priority w source type rest (bus_priority_from_str priority_str)
with_dir w source type priority_str rest (suc code) = ok (exits (suc code))

unfoldable pub cmd_publish : BusMachine → List Bytes → Outcome Published
cmd_publish w (dir ∷ source ∷ type ∷ priority_str ∷ rest) =
    if not (is_valid_name source) || not (is_valid_name type)
    then ok (exits 4)
    else with_dir w source type priority_str rest (verify_events_dir w.dir_state dir)
cmd_publish w _ = ok (exits 4)

-- What a prune deletes, or the exit code without one.
pub data Pruning : Type 0 where
  refused : ℕ → Pruning
  pruned : List PruneEntry × List PruneEntry → Pruning

abbrev after_prune : Outcome (List PruneEntry × List PruneEntry) → Outcome Pruning
after_prune (ok result) = ok (pruned result)
after_prune error = ok (refused 1)
after_prune abort = abort

module _ (qsort : (PruneEntry → PruneEntry → ℤ) → List PruneEntry → List PruneEntry) where
  abbrev with_limit : Folder → Option ℕ → Outcome Pruning
  with_limit processed none = ok (refused 4)
  with_limit processed (some max_bytes) = after_prune (bus_prune qsort processed max_bytes)

  abbrev prune_in : BusMachine → Folder → List Bytes → ℕ → Outcome Pruning
  prune_in w processed args zero =
      with_limit processed
        (parse_max_bytes_opt args ((bus_load_config w.config).retention_max_bytes))
  prune_in w processed args (suc code) = ok (refused (suc code))

  unfoldable pub cmd_prune : BusMachine → Folder → List Bytes → Outcome Pruning
  cmd_prune w processed [] = ok (refused 4)
  cmd_prune w processed (dir ∷ args) = prune_in w processed args (verify_events_dir w.dir_state dir)
