-- ===== src/Terminal/Line/Delete.antt =====
-- The two deletions of the line buffer.
use epistemic_framework.Common.{
  ℕ, ◌+◌, ◌-◌, true, false, [], ◌∷◌, ◌++◌, append_assoc, ltb, leb, ◌==◌, if◌then◌else◌, length,
  length-append, Bytes, ◌≡◌, refl, sym, ◌∙◌, arith,
}
use epistemic_framework.Common.Outcome.{ok}
use epistemic_framework.Terminal.Line.{
  LineState, store, memmove, line_delete_back, line_delete_forward,
}
use epistemic_framework.Terminal.Line.Memory.{store-append, last_or, memmove_down}
use epistemic_framework.Terminal.Line.Shows.{memory, line, Shows, length-memory}

-- The NUL behind the shorter text.
closed :
    (a b rest : Bytes) (z : ℕ)
    → store (length a + length b) 0 (a ++ (b ++ (z ∷ 0 ∷ rest))) ≡ memory a b (0 ∷ rest)
closed a b rest z =
    let e : a ++ (b ++ (z ∷ 0 ∷ rest)) ≡ (a ++ b) ++ (z ∷ 0 ∷ rest) =
      sym (append_assoc a b (z ∷ 0 ∷ rest)) in
    let n : length a + length b ≡ length (a ++ b) = omega (arith, length-append a b) in
    rw (e, n) (store-append (a ++ b) (0 ∷ rest) z 0 ∙ append_assoc a b (0 ∷ 0 ∷ rest))

abbrev without : Bytes → ℕ → Bytes → Bytes → LineState
without a c b rest = record {
  buf = a ++ (c ∷ (b ++ (0 ∷ rest)));
  len = length a + 1 + length b;
  cap = length (a ++ (c ∷ (b ++ (0 ∷ rest))));
  cursor = length a + 1;
}

as_without : (a b rest : Bytes) (c : ℕ) → line (a ++ (c ∷ [])) b rest ≡ without a c b rest
as_without a b rest c =
    let n : length (a ++ (c ∷ [])) ≡ length a + 1 = omega (arith, length-append a (c ∷ [])) in
    rw (append_assoc a (c ∷ []) (b ++ (0 ∷ rest)), n) refl

shorter_cap :
    (a b rest : Bytes) (c : ℕ)
    → length (a ++ (c ∷ (b ++ (0 ∷ rest)))) ≡ length (memory a b (0 ∷ rest))
shorter_cap a b rest c = omega (
  arith,
  length-append a (c ∷ (b ++ (0 ∷ rest))),
  length-append b (0 ∷ rest),
  length-memory a b (0 ∷ rest),
)

-- The block moves down over `c`.
moved_down :
    (a b rest : Bytes) (c : ℕ)
    → (if ltb (length a + 1) (length a + 1 + length b)
        then memmove
            (length a + 1 - 1)
            (length a + 1)
            (length a + 1 + length b - (length a + 1))
            (a ++ (c ∷ (b ++ (0 ∷ rest))))
        else a ++ (c ∷ (b ++ (0 ∷ rest))))
      ≡ a ++ (b ++ (last_or c b ∷ 0 ∷ rest))
moved_down a [] rest c =
    let none_behind : ltb (length a + 1) (length a + 1 + 0) ≡ false = ground arith in
    rw none_behind refl
moved_down a (y ∷ b) rest c =
    let behind : ltb (length a + 1) (length a + 1 + length (y ∷ b)) ≡ true = ground arith in
    let n : length a + 1 + length (y ∷ b) - (length a + 1) ≡ length (y ∷ b) = omega arith in
    let to : length a + 1 - 1 ≡ length a = omega arith in
    rw (behind, n, to) (memmove_down a (y ∷ b) (0 ∷ rest) c)

back_line :
    (a b rest : Bytes) (c : ℕ) → line_delete_back (without a c b rest) ≡ ok (line a b (0 ∷ rest))
back_line a b rest c =
    let some_before : (length a + 1 == 0) ≡ false = ground arith in
    let inside : leb (length a + 1 - 1) (length a + 1 + length b - 1) ≡ true = ground arith in
    let n : length a + 1 + length b - 1 ≡ length a + length b = omega arith in
    let at : length a + 1 - 1 ≡ length a = omega arith in
    unfold line_delete_back in
    rw
      (
        some_before,
        moved_down a b rest c,
        inside,
        n,
        closed a b rest (last_or c b),
        at,
        shorter_cap a b rest c,
      )
      refl

-- The byte in front of the cursor goes.
pub line_delete_back-Shows :
    (a b : Bytes) (c : ℕ) (ls : LineState)
    → Shows (a ++ (c ∷ [])) b ls
    → (ls' : LineState) × (line_delete_back ls ≡ ok ls') × Shows a b ls'
line_delete_back-Shows a b c ls (rest, shown) = (
  line a b (0 ∷ rest),
  rw (shown, as_without a b rest c) (back_line a b rest c),
  (0 ∷ rest, refl),
)

forward_line :
    (a b rest : Bytes) (c : ℕ)
    → line_delete_forward (line a (c ∷ b) rest) ≡ ok (line a b (0 ∷ rest))
forward_line a b rest c =
    let some_behind : leb (length a + length (c ∷ b)) (length a) ≡ false = ground arith in
    let inside : leb (length a) (length a + length (c ∷ b) - 1) ≡ true = ground arith in
    let n : length a + length (c ∷ b) - length a - 1 ≡ length b = omega arith in
    let len' : length a + length (c ∷ b) - 1 ≡ length a + length b = omega arith in
    unfold line_delete_forward in
    rw
      (
        some_behind,
        n,
        memmove_down a b (0 ∷ rest) c,
        inside,
        len',
        closed a b rest (last_or c b),
        shorter_cap a b rest c,
      )
      refl

-- The byte behind the cursor goes.
pub line_delete_forward-Shows :
    (a b : Bytes) (c : ℕ) (ls : LineState)
    → Shows a (c ∷ b) ls
    → (ls' : LineState) × (line_delete_forward ls ≡ ok ls') × Shows a b ls'
line_delete_forward-Shows a b c ls (rest, shown) =
    (line a b (0 ∷ rest), rw shown (forward_line a b rest c), (0 ∷ rest, refl))
