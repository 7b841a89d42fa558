-- ===== src/ChatFile/Lock/Moves.antt =====
-- What one step of a process does to the lock and to the file.
use epistemic_framework.Common.{
  ℕ, true, false, List, [], ◌∷◌, ◌++◌, take, take_whole, Bytes, Option, none, some, ◌≡◌, ◌≢◌, refl,
  sym, ◌∙◌, ap, arith,
}
use epistemic_framework.Common.Outcome.{Outcome, ok, error, abort, ◌>>=◌}
use epistemic_framework.ChatFile.Send.{Sent, compose_send, chat_send}
use epistemic_framework.ChatFile.Lock.{
  Entry, send_entry, Phase, idle, waiting, holding, looked, composed, writing, finished, unlocked,
  Shared, drop_holder, is_inside, is_writing, Move, acquire, look, compose, truncate, write_more,
  finish, break_off, give_up, unlock, crash, run_sends,
}

-- The holder of the lock is exactly who is inside, for process `i` at `p`.
abbrev pub Owns : ℕ → Shared → Phase → Type 0
Owns i s p = (is_inside p ≡ true → s.holder ≡ some i) × (s.holder ≡ some i → is_inside p ≡ true)

pub Move-Owns :
    {i : ℕ} {s s' : Shared} {p p' : Phase} → Move i s p s' p' → Owns i s p → Owns i s' p'
Move-Owns (give_up inside still) h = ground (arith, h.0, h.1)
Move-Owns mv h = ground (arith, h.0, h.1)

drop_others :
    (i j : ℕ) (holder : Option ℕ)
    → i ≢ j
    → (holder ≡ some j → drop_holder i holder ≡ some j)
      × (drop_holder i holder ≡ some j → holder ≡ some j)
drop_others i j none ne = (λ h. absurd (ground arith), λ h. absurd (ground arith))
drop_others i j (some k) ne = ground arith

-- The lock of another process is not touched, and it is not taken while it is held.
pub Move-others :
    {i : ℕ} {s s' : Shared} {p p' : Phase}
    → Move i s p s' p'
    → (j : ℕ) → i ≢ j
    → (s.holder ≡ some j → s'.holder ≡ some j) × (s'.holder ≡ some j → s.holder ≡ some j)
Move-others {i} {s} (acquire free) j ne =
    ((λ h. absurd (ground (arith, free, h))), (λ (h : some i ≡ some j). absurd (ne (ground arith))))
Move-others {i} {s} unlock j ne = drop_others i j s.holder ne
Move-others {i} {s} crash j ne = drop_others i j s.holder ne
Move-others mv j ne = ((λ h. h), (λ h. h))

-- Only who is inside writes.
pub Move-outside :
    {i : ℕ} {s s' : Shared} {p p' : Phase}
    → Move i s p s' p'
    → is_inside p ≡ false
    → (s'.file ≡ s.file) × (s'.log ≡ s.log) × (is_writing p' ≡ false)
Move-outside (give_up inside still) out = absurd (ground arith)
Move-outside mv out = ground arith

-- A write that was broken off stays one.
pub Move-torn :
    {i : ℕ} {s s' : Shared} {p p' : Phase} → Move i s p s' p' → s'.torn ≡ false → s.torn ≡ false
Move-torn break_off h = absurd (ground arith)
Move-torn mv h = ground arith

abbrev pub Sends : Entry → Option Bytes → Sent → Type 0
Sends e f sent = send_entry f e ≡ ok sent

-- What a process that is inside knows of the file: before it writes it has seen the file as it is,
-- and while it writes, the file is the front of the text that `chat_send` makes of the old one.
abbrev pub IsFresh : Option Bytes → Shared → Phase → Type 0
IsFresh base s (looked r f) = f ≡ s.file
IsFresh base s (composed e f sent) = (f ≡ s.file) × Sends e f sent
IsFresh base s (writing e f sent n) =
    (run_sends base s.log ≡ ok f) × Sends e f sent × (s.file ≡ some (take n sent.file))
IsFresh base s idle = Unit {0}
IsFresh base s (waiting r) = Unit {0}
IsFresh base s (holding r) = Unit {0}
IsFresh base s finished = Unit {0}
IsFresh base s unlocked = Unit {0}

pub outside-IsFresh :
    (base : Option Bytes) (s : Shared) (p : Phase) → is_inside p ≡ false → IsFresh base s p
outside-IsFresh base s idle h = tt
outside-IsFresh base s (waiting r) h = tt
outside-IsFresh base s unlocked h = tt
outside-IsFresh base s (holding r) h = tt
outside-IsFresh base s finished h = tt
outside-IsFresh base s (looked r f) h = absurd (ground arith)
outside-IsFresh base s (composed e f sent) h = absurd (ground arith)
outside-IsFresh base s (writing e f sent n) h = absurd (ground arith)

-- A step that leaves the file alone leaves what a process knows of it true.
pub same-IsFresh :
    (base : Option Bytes) (s s' : Shared) (p : Phase)
    → s'.file ≡ s.file
    → s'.log ≡ s.log
    → IsFresh base s p
    → IsFresh base s' p
same-IsFresh base s s' (looked r f) ef el h = h ∙ sym ef
same-IsFresh base s s' (composed e f sent) ef el h = (h.0 ∙ sym ef, h.1)
same-IsFresh base s s' (writing e f sent n) ef el h = (ap (run_sends base) el ∙ h.0, h.1, ef ∙ h.2)
same-IsFresh base s s' idle ef el h = tt
same-IsFresh base s s' (waiting r) ef el h = tt
same-IsFresh base s s' (holding r) ef el h = tt
same-IsFresh base s s' finished ef el h = tt
same-IsFresh base s s' unlocked ef el h = tt

-- Who comes in has seen nothing yet.
pub entered-IsFresh :
    {i : ℕ} {s s' : Shared} {p p' : Phase} (base : Option Bytes)
    → Move i s p s' p'
    → is_inside p ≡ false
    → IsFresh base s' p'
entered-IsFresh base (give_up inside still) out = absurd (ground arith)
entered-IsFresh base mv out = ground arith

bind_imp {ℓ κ} :
    {A : Type ℓ} {B : Type κ} {b b' : B} (o : Outcome A) (k k' : A → Outcome B)
    → (o >>= k) ≡ ok b
    → ((a : A) → k a ≡ ok b → k' a ≡ ok b')
    → (o >>= k') ≡ ok b'
bind_imp (ok a) k k' h imp = imp a h
bind_imp error k k' h imp = cc
bind_imp abort k k' h imp = cc

run_sends-append :
    (base f : Option Bytes) (log : List Entry) (e : Entry) (sent : Sent)
    → run_sends base log ≡ ok f
    → Sends e f sent
    → run_sends base (log ++ (e ∷ [])) ≡ ok (some sent.file)
unfolding run_sends
run_sends-append base f [] e sent h s =
    let same : base ≡ f = cc in let s' : send_entry base e ≡ ok sent = rw same s in rw s'
run_sends-append base f (x ∷ log) e sent h s =
    bind_imp (send_entry base x) (λ x'. run_sends (some x'.file) log) _ h
      (λ x' h'. run_sends-append (some x'.file) f log e sent h' s)

-- The file is that of the sends so far, one after the other.
abbrev pub IsSettled : Option Bytes → Shared → Type 0
IsSettled base s = run_sends base s.log ≡ ok s.file

pub Move-IsFresh :
    {i : ℕ} {s s' : Shared} {p p' : Phase} (base : Option Bytes)
    → Move i s p s' p'
    → is_inside p ≡ true
    → s'.torn ≡ false
    → IsFresh base s p
    → (is_writing p ≡ false → IsSettled base s)
    → IsFresh base s' p' × (is_writing p' ≡ false → IsSettled base s')
Move-IsFresh base look inside whole fresh settled = (refl, settled)
Move-IsFresh {s} base (compose {r} {f} now timestamp sent e) inside whole fresh settled =
    let seen : s.file ≡ f = sym fresh in
    let sends : compose_send f f r.handle r.message now timestamp ≡ ok sent = rw seen at e in
    ((fresh, unfold send_entry chat_send in sends), settled)
Move-IsFresh {s} base (truncate {f}) inside whole fresh settled =
    let seen : s.file ≡ f = sym fresh.0 in
    ((settled refl ∙ ap ok seen, fresh.1, refl), λ h. absurd (ground arith))
Move-IsFresh base (write_more n' le) inside whole fresh settled =
    ((fresh.0, fresh.1, refl), λ h. absurd (ground arith))
Move-IsFresh {s} base (finish {e} {f} {sent} {n} le) inside whole fresh settled =
    let written : some sent.file ≡ s.file =
      ap some (sym (take_whole n sent.file le)) ∙ sym fresh.2 in
    (tt, λ h. run_sends-append base f s.log e sent fresh.0 fresh.1 ∙ ap ok written)
Move-IsFresh base break_off inside whole fresh settled = absurd (ground arith)
Move-IsFresh base (give_up inside' still) inside whole fresh settled = (tt, λ h. settled still)
Move-IsFresh base unlock inside whole fresh settled = (tt, settled)
Move-IsFresh base crash inside whole fresh settled = (tt, λ h. settled (ground arith))
Move-IsFresh base mv inside whole fresh settled = absurd (ground arith)
