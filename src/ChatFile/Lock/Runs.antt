-- ===== src/ChatFile/Lock/Runs.antt =====
-- `chat_send` cuts the file to nothing before it writes: what a crash between the two leaves.
use epistemic_framework.Common.{
  ◌||◌, Bytes, ℕ, length, take, false, List, [], ◌∷◌, Option, none, some, ◌≡◌, ◌≢◌, refl, ◌∙◌, ap,
  arith,
}
use epistemic_framework.Common.Outcome.{ok}
use epistemic_framework.ChatFile.Read.{empty_state, read_loop, chat_read}
use epistemic_framework.Common.Fgets.{fgets_lines, c_strings, chunks}
use epistemic_framework.ChatFile.Lines.{read_lines}
use epistemic_framework.ChatFile.Send.{Sent, compose_send, chat_send}
use epistemic_framework.ChatFile.Lock.{
  Entry, send_entry, Phase, idle, waiting, holding, looked, composed, writing, Shared, is_writing,
  Move, ask, acquire, look, compose, truncate, write_more, finish, finished, unlock, unlocked,
  close, crash, drop_holder, run_sends, update, System, Step, pick, start, Reach, here, next,
}
use mathlib.Core.Path.{subst}
use epistemic_framework.ChatFile.Lock.Moves.{IsFresh}
use epistemic_framework.ChatFile.Lock.Serial.{at_self, at_other, update_holds, Reach-Inv}

-- A step of process 0 whose phase is known.
move :
    {file : Option Bytes} {s : System} {p p' : Phase} {shared' : Shared}
    → Reach file s
    → s.pc 0 ≡ p
    → Move 0 s.shared p shared' p'
    → Reach file (record { shared = shared'; pc = update s.pc 0 p' })
move r at mv = next r (pick 0 (rw at mv))

-- Process 0 goes through these phases.
abbrev pub phases : (ℕ → Phase) → List Phase → ℕ → Phase
phases pc [] = pc
phases pc (p ∷ ps) = phases (update pc 0 p) ps

phases-idle : (pc : ℕ → Phase) (ps : List Phase) (j : ℕ) → 0 ≢ j → phases pc ps j ≡ pc j
phases-idle pc [] j ne = refl
phases-idle pc (p ∷ ps) j ne = phases-idle (update pc 0 p) ps j ne ∙ at_other pc 0 j p ne

abbrev pub from_idle : List Phase → ℕ → Phase
from_idle = phases (λ _. idle)

-- When process 0 is idle again, all are.
all_idle : (ps : List Phase) (j : ℕ) → update (from_idle ps) 0 idle j ≡ idle
all_idle ps = update_holds (λ j p. p ≡ idle) (from_idle ps) 0 idle refl (phases-idle (λ _. idle) ps)

abbrev pub to_opened : Entry → Option Bytes → Sent → List Phase
to_opened e f sent =
    waiting e.request
    ∷ holding e.request
    ∷ looked e.request f
    ∷ composed e f sent
    ∷ writing e f sent 0
    ∷ []

-- Process 0 has cut the file to nothing.
abbrev pub opened : Entry → Option Bytes → Sent → System
opened e f sent = record {
  shared = record { file = some []; holder = some 0; log = []; torn = false };
  pc = from_idle (to_opened e f sent);
}

-- A process that takes the lock, composes its text and opens the file.
pub open_alone :
    (f : Option Bytes) (e : Entry) (sent : Sent)
    → send_entry f e ≡ ok sent
    → Reach f (opened e f sent)
open_alone f e sent composes =
    let r = e.request in
    let text : compose_send f f r.handle r.message e.now e.timestamp ≡ ok sent =
      unfold send_entry chat_send in composes in
    let pc₁ = from_idle (waiting r ∷ []) in
    let pc₂ = update pc₁ 0 (holding r) in
    let pc₃ = update pc₂ 0 (looked r f) in
    let begin : Reach f (start f) = here in
    let asked = move begin refl (ask r) in
    let acquired = move asked (at_self (λ _. idle) 0 (waiting r)) (acquire refl) in
    let seen = move acquired (at_self pc₁ 0 (holding r)) look in
    let written = move seen (at_self pc₂ 0 (looked r f)) (compose e.now e.timestamp sent text) in
    move written (at_self pc₃ 0 (composed e f sent)) truncate

abbrev before_opened : Entry → Option Bytes → Sent → ℕ → Phase
before_opened e f sent =
    from_idle (waiting e.request ∷ holding e.request ∷ looked e.request f ∷ composed e f sent ∷ [])

pub opened_at :
    (f : Option Bytes) (e : Entry) (sent : Sent) → (opened e f sent).pc 0 ≡ writing e f sent 0
opened_at f e sent = at_self (before_opened e f sent) 0 (writing e f sent 0)

-- Process `i` ends where it is.
abbrev pub crash_at : ℕ → System → System
crash_at i s = record {
  shared = record s.shared {
    holder = drop_holder i s.shared.holder;
    torn = s.shared.torn || is_writing (s.pc i);
  };
  pc = update s.pc i idle;
}

abbrev pub sent_once : Entry → Option Bytes → Sent → System
sent_once e f sent = record {
  shared = record {
    file = some (take (length sent.file) sent.file);
    holder = none;
    log = e ∷ [];
    torn = false;
  };
  pc =
      phases (from_idle (to_opened e f sent))
        (writing e f sent (length sent.file) ∷ finished ∷ unlocked ∷ idle ∷ []);
}

-- A process that is left alone sends its message to the end.
pub send_alone :
    (f : Option Bytes) (e : Entry) (sent : Sent)
    → send_entry f e ≡ ok sent
    → Reach f (sent_once e f sent)
send_alone f e sent composes =
    let n = length sent.file in
    let pc₅ = from_idle (to_opened e f sent) in
    let pc₆ = update pc₅ 0 (writing e f sent n) in
    let pc₇ = update pc₆ 0 finished in
    let cut = open_alone f e sent composes in
    let written = move cut (opened_at f e sent) (write_more n (omega arith)) in
    let whole = move written (at_self pc₅ 0 (writing e f sent n)) (finish (omega arith)) in
    let free = move whole (at_self pc₆ 0 finished) unlock in
    move free (at_self pc₇ 0 unlocked) close

pub sent_once_quiet :
    (f : Option Bytes) (e : Entry) (sent : Sent) (i : ℕ)
    → is_writing ((sent_once e f sent).pc i) ≡ false
sent_once_quiet f e sent i =
    let at : (sent_once e f sent).pc i ≡ idle =
      all_idle
        (waiting e.request
          ∷ holding e.request
          ∷ looked e.request f
          ∷ composed e f sent
          ∷ writing e f sent 0
          ∷ writing e f sent (length sent.file)
          ∷ finished
          ∷ unlocked
          ∷ [])
        i in
    ap is_writing at

empty_read : chat_read (some []) ≡ ok empty_state
unfolding chat_read read_lines read_loop fgets_lines c_strings chunks
empty_read = refl

unfinished :
    (base f : Option Bytes) (s : Shared) (p : Phase) (e : Entry) (sent : Sent) (n : ℕ)
    → p ≡ writing e f sent n
    → IsFresh base s p
    → IsFresh base s (writing e f sent n)
unfinished base f s p e sent n at fresh = subst (IsFresh base s) at fresh

-- However the steps of the processes were mixed, if no write was broken off before: a process that has opened the
-- file and not yet written to it can end there, and that leaves an empty file. What all sends that were written to
-- the end had made of the first file, and the whole text of the send under way, are lost: a read gives no messages, no participants and no writer.
pub crash_empties_chat :
    {base : Option Bytes} {s : System} (r : Reach base s) (i : ℕ) (e : Entry) (f : Option Bytes)
    (sent : Sent)
    → s.pc i ≡ writing e f sent 0
    → s.shared.torn ≡ false
    → Step s (crash_at i s)
      × (run_sends base s.shared.log ≡ ok f)
      × (send_entry f e ≡ ok sent)
      × ((crash_at i s).shared.file ≡ some [])
      × (chat_read (crash_at i s).shared.file ≡ ok empty_state)
crash_empties_chat {base} {s} r i e f sent at whole =
    let (before, sends, cut) =
      unfinished base f s.shared (s.pc i) e sent 0 at ((Reach-Inv r).fresh whole i) in
    (pick i crash, before, sends, cut, ap chat_read cut ∙ empty_read)
