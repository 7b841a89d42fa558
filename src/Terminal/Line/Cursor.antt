-- ===== src/Terminal/Line/Cursor.antt =====
-- The moves of the cursor, and all operations of the line buffer together: a text with a cursor in it.
use epistemic_framework.Common.{
  ℕ, ◌+◌, ◌/◌, ◌≤◌, ◌<◌, true, false, [], ◌∷◌, ◌++◌, append_assoc, append-nil, ltb, leb, length,
  length-append, Bytes, ◌≡◌, refl, sym, ◌∙◌, ap, arith,
}
use epistemic_framework.Common.Outcome.{Outcome, ok}
use epistemic_framework.Terminal.Line.{
  size_max, LineState, line_insert_char, line_delete_back, line_delete_forward, line_move_left,
  line_move_right, line_move_home, line_move_end,
}
use epistemic_framework.Terminal.Line.Shows.{memory, line, Shows, line_insert_char-Shows}
use epistemic_framework.Terminal.Line.Delete.{line_delete_back-Shows, line_delete_forward-Shows}

-- The nearest byte on the left comes first.
pub record Zipper : Type 0 where
  pub left : Bytes
  pub right : Bytes

abbrev pub backwards : Bytes → Bytes
backwards [] = []
backwards (c ∷ s) = backwards s ++ (c ∷ [])

abbrev pub text : Zipper → Bytes
text z = backwards z.left ++ z.right

-- The operations on a text with a cursor.
pub data Edit : Type 0 where
  insert : ℕ → Edit
  delete_back : Edit
  delete_forward : Edit
  move_left : Edit
  move_right : Edit
  move_home : Edit
  move_end : Edit

abbrev pub edit_at : Edit → Bytes → Bytes → Zipper
edit_at (insert c) l r = record { left = c ∷ l; right = r }
edit_at delete_back [] r = record { left = []; right = r }
edit_at delete_back (c ∷ l) r = record { left = l; right = r }
edit_at delete_forward l [] = record { left = l; right = [] }
edit_at delete_forward l (c ∷ r) = record { left = l; right = r }
edit_at move_left [] r = record { left = []; right = r }
edit_at move_left (c ∷ l) r = record { left = l; right = c ∷ r }
edit_at move_right l [] = record { left = l; right = [] }
edit_at move_right l (c ∷ r) = record { left = c ∷ l; right = r }
edit_at move_home l r = record { left = []; right = backwards l ++ r }
edit_at move_end l r = record { left = backwards r ++ l; right = [] }

abbrev pub edit : Edit → Zipper → Zipper
edit e z = edit_at e z.left z.right

-- The operation of terminal.c that carries out an edit.
abbrev pub run_edit : ℕ → Edit → LineState → Outcome LineState
run_edit junk (insert c) ls = line_insert_char junk ls c
run_edit junk delete_back ls = line_delete_back ls
run_edit junk delete_forward ls = line_delete_forward ls
run_edit junk move_left ls = ok (line_move_left ls)
run_edit junk move_right ls = ok (line_move_right ls)
run_edit junk move_home ls = ok (line_move_home ls)
run_edit junk move_end ls = ok (line_move_end ls)

abbrev pub Holds : Zipper → LineState → Type 0
Holds z ls = Shows (backwards z.left) z.right ls

abbrev pub size : Zipper → ℕ
size z = length z.left + length z.right

pub length-backwards : (s : Bytes) → length (backwards s) ≡ length s
length-backwards [] = refl
length-backwards (c ∷ s) = omega (arith, length-append (backwards s) (c ∷ []), length-backwards s)

backwards-append : (s t : Bytes) → backwards (s ++ t) ≡ backwards t ++ backwards s
backwards-append [] t = sym (append-nil (backwards t))
backwards-append (c ∷ s) t =
    ap (λ u. u ++ (c ∷ [])) (backwards-append s t)
    ∙ append_assoc (backwards t) (backwards s) (c ∷ [])

backwards-backwards : (s : Bytes) → backwards (backwards s) ≡ s
backwards-backwards [] = refl
backwards-backwards (c ∷ s) =
    backwards-append (backwards s) (c ∷ []) ∙ ap (c ∷◌) (backwards-backwards s)

-- A cursor elsewhere in the same text.
moved :
    (p q p' q' rest : Bytes) (cursor : ℕ)
    → p ++ q ≡ p' ++ q'
    → cursor ≡ length p'
    → record (line p q rest) { cursor = cursor } ≡ line p' q' rest
moved p q p' q' rest cursor e at =
    let buf : memory p q rest ≡ memory p' q' rest =
      sym (append_assoc p q (0 ∷ rest))
      ∙ ap (λ t. t ++ (0 ∷ rest)) e
      ∙ append_assoc p' q' (0 ∷ rest) in
    let len : length p + length q ≡ length p' + length q' =
      omega (arith, length-append p q, length-append p' q', ap length e) in
    rw (buf, len, at) refl

left_line :
    (l r rest : Bytes) (c : ℕ)
    → line_move_left (line (backwards (c ∷ l)) r rest) ≡ line (backwards l) (c ∷ r) rest
left_line l r rest c =
    let n = length-append (backwards l) (c ∷ []) in
    let some_left : ltb 0 (length (backwards (c ∷ l))) ≡ true = ground (arith, n) in
    unfold line_move_left in
    rw some_left (
      moved (backwards (c ∷ l)) r (backwards l) (c ∷ r) rest _
        (append_assoc (backwards l) (c ∷ []) r) (omega (arith, n)))

right_line :
    (p r rest : Bytes) (c : ℕ) → line_move_right (line p (c ∷ r) rest) ≡ line (p ++ (c ∷ [])) r rest
right_line p r rest c =
    let some_right : ltb (length p) (length p + length (c ∷ r)) ≡ true = ground arith in
    unfold line_move_right in
    rw some_right (
      moved p (c ∷ r) (p ++ (c ∷ [])) r rest _ (sym (append_assoc p (c ∷ []) r))
        (omega (arith, length-append p (c ∷ []))))

home_line : (p r rest : Bytes) → line_move_home (line p r rest) ≡ line [] (p ++ r) rest
home_line p r rest = unfold line_move_home in moved p r [] (p ++ r) rest 0 refl refl

end_line : (p r rest : Bytes) → line_move_end (line p r rest) ≡ line (p ++ r) [] rest
end_line p r rest =
    unfold line_move_end in
    moved p r (p ++ r) [] rest (length p + length r) (sym (append-nil (p ++ r)))
      (omega (arith, length-append p r))

none_before : (r rest : Bytes) → line_delete_back (line [] r rest) ≡ ok (line [] r rest)
none_before r rest = unfold line_delete_back in refl

none_behind : (p rest : Bytes) → line_delete_forward (line p [] rest) ≡ ok (line p [] rest)
none_behind p rest =
    let at_end : leb (length p + 0) (length p) ≡ true = ground arith in
    unfold line_delete_forward in rw at_end refl

at_start : (r rest : Bytes) → line_move_left (line [] r rest) ≡ line [] r rest
at_start r rest = unfold line_move_left in refl

at_end : (p rest : Bytes) → line_move_right (line p [] rest) ≡ line p [] rest
at_end p rest =
    let last : ltb (length p) (length p + 0) ≡ false = ground arith in
    unfold line_move_right in rw last refl

-- Every operation does to the buffer what its edit does to the text, and no assertion fires.
pub run_edit-Holds :
    (junk : ℕ) (e : Edit) (l r : Bytes) (ls : LineState)
    → Holds (record { left = l; right = r }) ls
    → length l + length r + 1 < size_max / 2
    → (ls' : LineState) × (run_edit junk e ls ≡ ok ls') × Holds (edit_at e l r) ls'
run_edit-Holds junk (insert c) l r ls h small =
    line_insert_char-Shows junk (backwards l) r ls c h (rw (length-backwards l) small)
run_edit-Holds junk delete_back [] r ls (rest, h) small =
    (line [] r rest, rw h (none_before r rest), (rest, refl))
run_edit-Holds junk delete_back (c ∷ l) r ls h small = line_delete_back-Shows (backwards l) r c ls h
run_edit-Holds junk delete_forward l [] ls (rest, h) small =
    (line (backwards l) [] rest, rw h (none_behind (backwards l) rest), (rest, refl))
run_edit-Holds junk delete_forward l (c ∷ r) ls h small =
    line_delete_forward-Shows (backwards l) r c ls h
run_edit-Holds junk move_left [] r ls (rest, h) small =
    (line [] r rest, rw h (ap ok (at_start r rest)), (rest, refl))
run_edit-Holds junk move_left (c ∷ l) r ls (rest, h) small =
    (line (backwards l) (c ∷ r) rest, rw h (ap ok (left_line l r rest c)), (rest, refl))
run_edit-Holds junk move_right l [] ls (rest, h) small =
    (line (backwards l) [] rest, rw h (ap ok (at_end (backwards l) rest)), (rest, refl))
run_edit-Holds junk move_right l (c ∷ r) ls (rest, h) small = (
  line (backwards (c ∷ l)) r rest,
  rw h (ap ok (right_line (backwards l) r rest c)),
  (rest, refl),
)
run_edit-Holds junk move_home l r ls (rest, h) small =
    (line [] (backwards l ++ r) rest, rw h (ap ok (home_line (backwards l) r rest)), (rest, refl))
run_edit-Holds junk move_end l r ls (rest, h) small =
    let same : backwards l ++ r ≡ backwards (backwards r ++ l) =
      sym (backwards-append (backwards r) l ∙ ap (backwards l ++◌) (backwards-backwards r)) in
    (
      line (backwards l ++ r) [] rest,
      rw h (ap ok (end_line (backwards l) r rest)),
      (rest, ap (λ p. line p [] rest) same),
    )

pub edit_at-size : (e : Edit) (l r : Bytes) → size (edit_at e l r) ≤ length l + length r + 1
edit_at-size (insert c) l r = omega arith
edit_at-size delete_back [] r = omega arith
edit_at-size delete_back (c ∷ l) r = omega arith
edit_at-size delete_forward l [] = omega arith
edit_at-size delete_forward l (c ∷ r) = omega arith
edit_at-size move_left [] r = omega arith
edit_at-size move_left (c ∷ l) r = omega arith
edit_at-size move_right l [] = omega arith
edit_at-size move_right l (c ∷ r) = omega arith
edit_at-size move_home l r = omega (arith, length-append (backwards l) r, length-backwards l)
edit_at-size move_end l r = omega (arith, length-append (backwards r) l, length-backwards r)
