-- ===== src/ChatFile/Lock.antt =====
-- `chat_send` by several processes at once: each takes the lock of src/nbs-chat/lock.c around its
-- work on the file. One step of one process at a time; an fcntl lock has one holder, is
-- given up by its process alone, and is dropped by the system when that process ends.
pub mod Moves
pub mod Serial
pub mod Chats
pub mod Runs
mod Tests
use epistemic_framework.Common.{
  ℕ, zero, suc, ◌≤◌, Bool, true, false, ◌||◌, List, [], ◌∷◌, ◌++◌, ◌==◌, if◌then◌else◌, length,
  take, Bytes, Option, none, some, ◌≡◌,
}
use epistemic_framework.Common.Outcome.{Outcome, ok, ◌>>=◌}
use epistemic_framework.Common.Int.{ℤ}
use epistemic_framework.ChatFile.Send.{Sent, compose_send, chat_send}
use mathlib.Core.Logic.{ite}
use native.Mathlib.Decide.{ℕ_discrete}

-- The arguments of a call of `chat_send`.
pub record Request : Type 0 where
  pub handle : Bytes
  pub message : Bytes

-- A request with the time that the call took.
pub record Entry : Type 0 where
  pub request : Request
  pub now : ℤ
  pub timestamp : Bytes

unfoldable pub send_entry : Option Bytes → Entry → Outcome Sent
send_entry file e = chat_send file e.request.handle e.request.message e.now e.timestamp

-- Where a process is in `chat_send`. `looked` has read the state, `composed` has the new text, and
-- `writing` has put the first bytes of it into the file, which was cut to nothing before.
-- `finished` is in front of `chat_lock_release`, `unlocked` in front of its check.
pub data Phase : Type 0 where
  idle : Phase
  waiting : Request → Phase
  holding : Request → Phase
  looked : Request → Option Bytes → Phase
  composed : Entry → Option Bytes → Sent → Phase
  writing : Entry → Option Bytes → Sent → ℕ → Phase
  finished : Phase
  unlocked : Phase

-- The chat file and the holder of its lock. `log` has the sends that were written to the end, in
-- their order, `torn` says whether a write was broken off.
pub record Shared : Type 0 where
  pub file : Option Bytes
  pub holder : Option ℕ
  pub log : List Entry
  pub torn : Bool

-- What is left of the lock when process `i` gives up its part of it.
abbrev pub drop_holder : ℕ → Option ℕ → Option ℕ
drop_holder i none = none
drop_holder i (some j) = if i == j then none else some j

abbrev pub is_inside : Phase → Bool
is_inside (holding r) = true
is_inside (looked r f) = true
is_inside (composed e f sent) = true
is_inside (writing e f sent n) = true
is_inside finished = true
is_inside idle = false
is_inside (waiting r) = false
is_inside unlocked = false

abbrev pub is_writing : Phase → Bool
is_writing (writing e f sent n) = true
is_writing idle = false
is_writing (waiting r) = false
is_writing (holding r) = false
is_writing (looked r f) = false
is_writing (composed e f sent) = false
is_writing finished = false
is_writing unlocked = false

-- A step of process `i`. `give_up` is an early return of -1 with the release in front of it,
-- `break_off` the return after a failed write, and `crash` the end of the process, also by a failed assertion.
pub data Move (i : ℕ) : Shared → Phase → Shared → Phase → Type 0 where
  ask : {s : Shared} (r : Request) → Move i s idle s (waiting r)
  acquire :
      {s : Shared} {r : Request}
      → s.holder ≡ none
      → Move i s (waiting r) (record s { holder = some i }) (holding r)
  lock_fails : {s : Shared} {r : Request} → Move i s (waiting r) s idle
  look : {s : Shared} {r : Request} → Move i s (holding r) s (looked r s.file)
  compose :
      {s : Shared} {r : Request} {f : Option Bytes} (now : ℤ) (timestamp : Bytes) (sent : Sent)
      → compose_send f s.file r.handle r.message now timestamp ≡ ok sent
      → Move i s
          (looked r f)
          s
          (composed (record { request = r; now = now; timestamp = timestamp }) f sent)
  truncate :
      {s : Shared} {e : Entry} {f : Option Bytes} {sent : Sent}
      → Move i s (composed e f sent) (record s { file = some [] }) (writing e f sent 0)
  write_more :
      {s : Shared} {e : Entry} {f : Option Bytes} {sent : Sent} {n : ℕ} (n' : ℕ)
      → n ≤ n'
      → Move i s
          (writing e f sent n)
          (record s { file = some (take n' sent.file) })
          (writing e f sent n')
  finish :
      {s : Shared} {e : Entry} {f : Option Bytes} {sent : Sent} {n : ℕ}
      → length sent.file ≤ n
      → Move i s (writing e f sent n) (record s { log = s.log ++ (e ∷ []) }) finished
  break_off :
      {s : Shared} {e : Entry} {f : Option Bytes} {sent : Sent} {n : ℕ}
      → Move i s (writing e f sent n) (record s { torn = true }) finished
  give_up :
      {s : Shared} {p : Phase} → is_inside p ≡ true → is_writing p ≡ false → Move i s p s finished
  unlock : {s : Shared} → Move i s finished (record s { holder = drop_holder i s.holder }) unlocked
  close : {s : Shared} → Move i s unlocked s idle
  crash :
      {s : Shared} {p : Phase}
      → Move i s p
          (record s { holder = drop_holder i s.holder; torn = s.torn || is_writing p })
          idle

abbrev pub update : (ℕ → Phase) → ℕ → Phase → ℕ → Phase
update f i p j = ite (ℕ_discrete i j) p (f j)

pub record System : Type 0 where
  pub shared : Shared
  pub pc : ℕ → Phase

pub data Step : System → System → Type 0 where
  pick :
      {s : System} {shared' : Shared} {p : Phase} (i : ℕ)
      → Move i s.shared (s.pc i) shared' p
      → Step s (record { shared = shared'; pc = update s.pc i p })

-- Nobody is in `chat_send`.
abbrev pub start : Option Bytes → System
start file = record {
  shared = record { file = file; holder = none; log = []; torn = false };
  pc = λ _. idle;
}

pub data Reach (file : Option Bytes) : System → Type 0 where
  here : Reach file (start file)
  next : {s t : System} → Reach file s → Step s t → Reach file t

-- One `chat_send` after the other.
unfoldable pub run_sends : Option Bytes → List Entry → Outcome (Option Bytes)
run_sends file [] = ok file
run_sends file (e ∷ es) = send_entry file e >>= λ sent. run_sends (some sent.file) es
