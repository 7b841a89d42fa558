-- ===== src/Terminal/Keys/Edits.antt =====
-- The keys that edit the line, as edits of a text with a cursor.
use epistemic_framework.Common.{
  ℕ, ◌+◌, ◌≤◌, ◌<◌, ◌==◌, if◌then◌else◌, length, Bytes, Option, none, some, ◌≡◌, refl, arith,
}
use epistemic_framework.Common.Outcome.{Outcome, ok, error, abort, ◌>>=◌}
use epistemic_framework.Common.Int.{ℤ}
use epistemic_framework.Base64.{int_max}
use epistemic_framework.Terminal.Line.{LineState}
use epistemic_framework.Terminal.Line.Cursor.{
  Zipper, length-backwards, Edit, delete_forward, move_left, move_right, move_home, move_end,
  edit_at, run_edit, Holds, run_edit-Holds, size, edit_at-size,
}
use epistemic_framework.Terminal.Redraw.{line_redraw_lands}
use epistemic_framework.Terminal.Keys.{Screen, param_is, redraw, tilde, dispatch}

-- The edit that the end of an escape sequence stands for.
abbrev pub tilde_edit : ℤ → Option Edit
tilde_edit param =
    if param_is 3 param
    then some delete_forward
    else if param_is 1 param
    then some move_home
    else if param_is 4 param
    then some move_end
    else none

abbrev pub key_edit : ℤ → ℕ → Option Edit
key_edit param c =
    if c == b'C'
    then some move_right
    else if c == b'D'
    then some move_left
    else if c == b'H'
    then some move_home
    else if c == b'F'
    then some move_end
    else if c == b'~'
    then tilde_edit param
    else none

pub bind_then {ℓ κ μ} :
    {A : Type ℓ} {B : Type κ} {C : Type μ} {b : B} (m : Outcome A) (f : A → Outcome B)
    (g : B → Outcome C)
    → (m >>= f) ≡ ok b
    → (m >>= λ a. f a >>= g) ≡ g b
bind_then (ok a) f g h = rw h refl
bind_then error f g h = cc
bind_then abort f g h = cc

abbrev pub edit_or : Option Edit → Zipper → Zipper
edit_or none z = z
edit_or (some e) z = edit_at e z.left z.right

module _ (junk tw : ℕ) (handle : Bytes) where
  abbrev pub edit_and_redraw : Screen → Option Edit → Outcome Screen
  edit_and_redraw s none = ok s
  edit_and_redraw s (some e) = run_edit junk e s.line >>= λ ls. redraw tw handle s ls

  tilde_lem : (s : Screen) → tilde tw handle s ≡ edit_and_redraw s (tilde_edit s.esc.param)
  unfolding tilde
  tilde_lem s = ground arith

  pub dispatch_lem :
      (s : Screen) (c : ℕ) → dispatch tw handle s c ≡ edit_and_redraw s (key_edit s.esc.param c)
  unfolding dispatch
  dispatch_lem s c = ground (arith, tilde_lem s)

  -- A redraw changes the row alone.
  redraw_kept :
      (l r : Bytes) (s : Screen) (ls : LineState)
      → Holds (record { left = l; right = r }) ls
      → 0 < tw
      → length handle + 2 + (length l + length r) ≤ int_max
      → (row : ℕ) × (redraw tw handle s ls ≡ ok (record s { line = ls; row = row }))
  redraw_kept l r s ls (rest, h) some_width fits =
      let n = length-backwards l in
      let inside : ls.cursor ≤ ls.len = rw h (omega arith) in
      let short : length handle + 2 + ls.len ≤ int_max = rw h (omega (arith, n)) in
      let (d, drawn, _, _, _, _) = line_redraw_lands tw handle s.row ls some_width inside short in
      (d.target_row, unfold redraw in rw drawn refl)

  -- An edit of a line that fits an int, and the redraw behind it.
  pub edit_and_redraw-Holds :
      (o : Option Edit) (z : Zipper) (s : Screen)
      → Holds z s.line
      → 0 < tw
      → length handle + 3 + size z ≤ int_max
      → (s' : Screen) × (edit_and_redraw s o ≡ ok s')
        × Holds (edit_or o z) s'.line
        × (s'.esc ≡ s.esc)
        × (size (edit_or o z) ≤ size z + 1)
  edit_and_redraw-Holds none z s h some_width fits = (s, refl, h, refl, omega arith)
  edit_and_redraw-Holds (some e) z s h some_width fits =
      let (ls, edited, h') = run_edit-Holds junk e z.left z.right s.line h (omega arith) in
      let small = edit_at-size e z.left z.right in
      let z' = edit_at e z.left z.right in
      let (row, drawn) = redraw_kept z'.left z'.right s ls h' some_width (omega arith) in
      (record s { line = ls; row = row }, rw edited drawn, h', refl, small)
