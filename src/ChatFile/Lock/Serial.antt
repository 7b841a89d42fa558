-- ===== src/ChatFile/Lock/Serial.antt =====
-- What the lock is for: one process at a time is in `chat_send`, and the file is that of the sends
-- one after the other.
use mathlib.Core.Path.{subst}
use mathlib.Core.Logic.{if_pos, if_neg}
use native.Mathlib.Decide.{ℕ_discrete}
use epistemic_framework.Common.{
  ℕ, true, false, Bytes, Option, some, ◌≡◌, ◌≢◌, refl, sym, ◌∙◌, ap, arith, inl, inr, Bool-cases,
}
use epistemic_framework.Common.Outcome.{ok}
use epistemic_framework.ChatFile.Lock.{
  Phase, unlocked, Shared, is_inside, is_writing, Move, update, System, Step, pick, start, Reach,
  here, next, run_sends,
}
use epistemic_framework.ChatFile.Lock.Moves.{
  Owns, Move-Owns, Move-others, Move-outside, IsFresh, outside-IsFresh, same-IsFresh,
  entered-IsFresh, IsSettled, Move-IsFresh, Move-torn,
}

-- Who is inside holds the lock, and what it knows of the file is true, unless a write was broken off.
pub record Inv (base : Option Bytes) (s : System) : Type 0 where
  pub owns : (i : ℕ) → Owns i s.shared (s.pc i)
  pub fresh : s.shared.torn ≡ false → (i : ℕ) → IsFresh base s.shared (s.pc i)
  pub settled :
      s.shared.torn ≡ false → ((i : ℕ) → is_writing (s.pc i) ≡ false) → IsSettled base s.shared

pub at_self : (pc : ℕ → Phase) (i : ℕ) (p : Phase) → update pc i p i ≡ p
at_self pc i p = if_pos (ℕ_discrete i i) refl p (pc i)

pub at_other : (pc : ℕ → Phase) (i j : ℕ) (p : Phase) → i ≢ j → update pc i p j ≡ pc j
at_other pc i j p ne = if_neg (ℕ_discrete i j) ne p (pc j)

-- What holds at the process that moves and at all others holds at each.
pub update_holds :
    (P : ℕ → Phase → Type 0) (pc : ℕ → Phase) (i : ℕ) (p : Phase)
    → P i p
    → ((j : ℕ) → i ≢ j → P j (pc j))
    → (j : ℕ) → P j (update pc i p j)
update_holds P pc i p mine others j = elim (ℕ_discrete i j) [
  | yes same ↦ subst (λ k. P k (update pc i p k)) same (rw (at_self pc i p) mine)
  | no other ↦ rw (at_other pc i j p other) (others j other)
]

outside_not_writing : (p : Phase) → is_inside p ≡ false → is_writing p ≡ false
outside_not_writing p h = ground arith

-- Process `i` moves to `p`, in a state in which the invariant holds.
module _ {base : Option Bytes} {s : System} (inv : Inv base s) {shared' : Shared} {p : Phase}
    (i : ℕ) (mv : Move i s.shared (s.pc i) shared' p) where
  Owns-kept : (j : ℕ) → Owns j shared' (update s.pc i p j)
  Owns-kept =
      update_holds (λ j q. Owns j shared' q) s.pc i p (Move-Owns mv (inv.owns i))
        λ j ne.
          let moved = Move-others mv j ne in
          let own = inv.owns j in ((λ h. moved.0 (own.0 h)), (λ h. own.1 (moved.1 h)))

  -- The others are outside while `i` is inside.
  alone : is_inside (s.pc i) ≡ true → (j : ℕ) → i ≢ j → is_inside (s.pc j) ≡ false
  alone inside j ne = elim (Bool-cases (is_inside (s.pc j))) [
    | inl both ↦
        let e : some i ≡ some j = sym ((inv.owns i).0 inside) ∙ (inv.owns j).0 both in
        absurd (ne (ground arith))
    | inr out ↦ out
  ]

  IsFresh-kept :
      shared'.torn ≡ false
      → IsFresh base shared' p
      → (j : ℕ) → IsFresh base shared' (update s.pc i p j)
  IsFresh-kept whole mine =
      update_holds (λ j q. IsFresh base shared' q) s.pc i p mine
        λ j ne. elim (Bool-cases (is_inside (s.pc i))) [
          | inl inside ↦ outside-IsFresh base shared' (s.pc j) (alone inside j ne)
          | inr out ↦
              let still = Move-outside mv out in
              same-IsFresh base s.shared shared' (s.pc j) still.0 still.1
                (inv.fresh (Move-torn mv whole) j)
        ]

  writing_before :
      is_inside (s.pc i) ≡ true
      → is_writing (s.pc i) ≡ false
      → (j : ℕ) → is_writing (s.pc j) ≡ false
  writing_before inside still j = elim (ℕ_discrete i j) [
    | yes same ↦ subst (λ k. is_writing (s.pc k) ≡ false) same still
    | no other ↦ outside_not_writing (s.pc j) (alone inside j other)
  ]

  quiet_before :
      is_inside (s.pc i) ≡ false
      → ((j : ℕ) → is_writing (update s.pc i p j) ≡ false)
      → (j : ℕ) → is_writing (s.pc j) ≡ false
  quiet_before out quiet j = elim (ℕ_discrete i j) [
    | yes same ↦
        let at_i : is_writing (s.pc i) ≡ false = outside_not_writing (s.pc i) out in
        subst (λ k. is_writing (s.pc k) ≡ false) same at_i
    | no other ↦ rw (at_other s.pc i j p other) at (quiet j)
  ]

  -- The mover's own step, as `Move-IsFresh` sees it.
  moved_inside :
      is_inside (s.pc i) ≡ true
      → shared'.torn ≡ false
      → IsFresh base shared' p × (is_writing p ≡ false → IsSettled base shared')
  moved_inside inside whole =
      let before = Move-torn mv whole in
      Move-IsFresh base mv inside whole (inv.fresh before i)
        (λ still. inv.settled before (writing_before inside still))

  Move-Inv : Inv base (record { shared = shared'; pc = update s.pc i p })
  Move-Inv = elim (Bool-cases (is_inside (s.pc i))) [
    | inl inside ↦ record {
      owns = Owns-kept;
      fresh = λ whole. IsFresh-kept whole (moved_inside inside whole).0;
      settled = λ whole quiet. (moved_inside inside whole).1 (rw (at_self s.pc i p) at (quiet i));
    }
    | inr out ↦
        let still = Move-outside mv out in
        record {
          owns = Owns-kept;
          fresh = λ whole. IsFresh-kept whole (entered-IsFresh base mv out);
          settled = λ whole quiet.
              ap (run_sends base) still.1
              ∙ inv.settled (Move-torn mv whole) (quiet_before out quiet)
              ∙ ap ok (sym still.0);
        }
  ]

start-Inv : (file : Option Bytes) → Inv file (start file)
start-Inv file = record {
  owns = λ i. ((λ h. absurd (ground arith)), (λ h. absurd (ground arith)));
  fresh = λ whole i. tt;
  settled = λ whole quiet. unfold run_sends in refl;
}

Step-Inv : {base : Option Bytes} {s t : System} → Step s t → Inv base s → Inv base t
Step-Inv (pick i mv) inv = Move-Inv inv i mv

pub Reach-Inv : {file : Option Bytes} {s : System} → Reach file s → Inv file s
Reach-Inv {file} here = start-Inv file
Reach-Inv (next r st) = Step-Inv st (Reach-Inv r)

-- However the steps of the processes are mixed, and whichever of them fail or crash: two processes are never
-- in `chat_send` between the acquisition and the release of the lock at once, and the check of the release, that
-- the lock is no longer held by the process itself, never fails.
pub lock_excludes :
    {file : Option Bytes} {s : System} (r : Reach file s)
    → ((i j : ℕ) → is_inside (s.pc i) ≡ true → is_inside (s.pc j) ≡ true → i ≡ j)
      × ((i : ℕ) → s.pc i ≡ unlocked → s.shared.holder ≢ some i)
lock_excludes {s} r =
    let inv = Reach-Inv r in
    (
      λ i j in_i in_j.
          let e : some i ≡ some j = sym ((inv.owns i).0 in_i) ∙ (inv.owns j).0 in_j in ground arith,
      λ i at held. absurd (ground (arith, at, (inv.owns i).1 held)),
    )

-- However the steps of the processes are mixed: as long as no write was broken off, the file is, whenever
-- nobody is writing, what the calls of `chat_send` that were written to the end make of the first file, one
-- after the other in their order.
pub lock_serializes :
    {file : Option Bytes} {s : System} (r : Reach file s)
    → s.shared.torn ≡ false
    → ((i : ℕ) → is_writing (s.pc i) ≡ false)
    → run_sends file s.shared.log ≡ ok s.shared.file
lock_serializes r whole quiet = (Reach-Inv r).settled whole quiet
