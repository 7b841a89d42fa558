-- ===== src/Terminal/Redraw.antt =====
-- `line_redraw`: where the cursor goes. The escape sequences that it prints are the numbers in `Drawn`.
use native.Mathlib.Nat.{div-add-mod', mod-lt, div-eq_of_lt-le, div-mul-le_self, le-div_iff_mul-le}
use epistemic_framework.Common.{
  ℕ, zero, suc, ◌+◌, ◌-◌, ◌*◌, ◌/◌, ◌%◌, ◌≤◌, ◌<◌, true, leb, ltb, if◌then◌else◌, length, Bytes,
  Option, none, some, ◌≡◌, refl, sym, arith, ◌⊎◌, inl, inr,
}
use epistemic_framework.Common.Outcome.{Outcome, ok, ◌>>◌, assert}
use epistemic_framework.Base64.{int_max}
use epistemic_framework.Terminal.Line.{LineState}

-- The width that `ioctl` reports, `none` if it fails.
unfoldable pub get_terminal_width : Option ℕ → ℕ
get_terminal_width none = 80
get_terminal_width (some ws_col) = if ltb 0 ws_col then ws_col else 80

-- `\033[<up>A`, then `\r\033[J`, the prompt and the line, which end in row `end_row` of the input; then
-- `\033[<end_row - target_row>A`, `\r` and `\033[<target_col>C`. The row is kept in `g_cursor_row`.
pub record Drawn : Type 0 where
  pub up : ℕ
  pub end_row : ℕ
  pub target_row : ℕ
  pub target_col : ℕ

abbrev pub row_of : ℕ → ℕ → ℕ
row_of tw abs = if ltb 0 abs then (abs - 1) / tw else 0

unfoldable pub line_redraw : ℕ → Bytes → ℕ → LineState → Outcome Drawn
line_redraw tw handle cursor_row ls = do
  assert (leb ls.cursor ls.len)
  assert (ltb 0 tw)
  assert (leb (length handle) (int_max - 2))
  let prompt_vlen = length handle + 2
  assert (leb ls.len (int_max - prompt_vlen))
  assert (leb ls.cursor (int_max - prompt_vlen))
  let end_abs = prompt_vlen + ls.len
  let target_abs = prompt_vlen + ls.cursor
  ok (record {
    up = cursor_row;
    end_row = row_of tw end_abs;
    target_row = row_of tw target_abs;
    target_col = target_abs % tw;
  })

row_inside : (tw t q r : ℕ) → t ≡ q * tw + suc r → suc r < tw → row_of tw t ≡ q
row_inside tw t q r e lt =
    let some_text : ltb 0 t ≡ true = ground arith in
    let next : (q + 1) * tw ≡ q * tw + tw = grind arith in
    rw some_text (div-eq_of_lt-le tw (omega arith) (omega arith))

row_at_edge : (tw t q : ℕ) → t ≡ suc q * tw → 0 < tw → row_of tw t ≡ q
row_at_edge tw t q e some_width =
    let next : suc q * tw ≡ q * tw + tw = grind arith in
    let next' : (q + 1) * tw ≡ q * tw + tw = grind arith in
    let some_text : ltb 0 t ≡ true = ground arith in
    rw some_text (div-eq_of_lt-le tw (omega arith) (omega arith))

row_mono : (tw s t : ℕ) → 0 < tw → 0 < s → s ≤ t → row_of tw s ≤ row_of tw t
row_mono tw s t some_width some_text le =
    let (e, e') : (ltb 0 s ≡ true) × (ltb 0 t ≡ true) = (ground arith, ground arith) in
    let below : (s - 1) / tw * tw ≤ t - 1 = omega (arith, div-mul-le_self (s - 1) tw) in
    rw (e, e') ((le-div_iff_mul-le some_width).1 below)

-- Where the cursor stands in the row, and how far from the start of the input that is.
abbrev pub IsAt : ℕ → ℕ → ℕ → ℕ → Type 0
IsAt tw target row col =
    ((0 < col) × (row * tw + col ≡ target)) ⊎ ((col ≡ 0) × (row * tw + tw ≡ target))

lands : (tw t q r : ℕ) → 0 < tw → 0 < t → t ≡ q * tw + r → r < tw → IsAt tw t (row_of tw t) r
lands tw t zero zero some_width some_text e lt = absurd (grind arith)
lands tw t (suc q) zero some_width some_text e lt =
    let e' : t ≡ suc q * tw = omega arith in
    let next : suc q * tw ≡ q * tw + tw = grind arith in
    inr (refl, rw (row_at_edge tw t q e' some_width) (omega arith))
lands tw t q (suc r) some_width some_text e lt =
    inl (omega arith, rw (row_inside tw t q r e lt) (sym e))

-- A redraw of a line that fits an int, with the cursor in it: the cursor is moved up to the first row that was kept, no more rows up from the end of the text than there are, and to
-- the column and the row of its place, counted from the start of the prompt, unless that is a multiple of the width: then it is put at
-- the start of the row before, a whole row short of its place.
pub line_redraw_lands :
    (tw : ℕ) (handle : Bytes) (cursor_row : ℕ) (ls : LineState)
    → 0 < tw
    → ls.cursor ≤ ls.len
    → length handle + 2 + ls.len ≤ int_max
    → (d : Drawn) × (line_redraw tw handle cursor_row ls ≡ ok d)
      × (d.up ≡ cursor_row)
      × (d.target_col < tw)
      × (d.target_row ≤ d.end_row)
      × IsAt tw (length handle + 2 + ls.cursor) d.target_row d.target_col
line_redraw_lands tw handle cursor_row ls some_width inside fits =
    let target = length handle + 2 + ls.cursor in
    let (e₁, e₂) : (leb ls.cursor ls.len ≡ true) × (ltb 0 tw ≡ true) =
      (ground arith, ground arith) in
    let e₃ : leb (length handle) (int_max - 2) ≡ true = ground arith in
    let e₄ : leb ls.len (int_max - (length handle + 2)) ≡ true = ground arith in
    let e₅ : leb ls.cursor (int_max - (length handle + 2)) ≡ true = ground arith in
    (
      record {
        up = cursor_row;
        end_row = row_of tw (length handle + 2 + ls.len);
        target_row = row_of tw target;
        target_col = target % tw;
      },
      (unfold line_redraw in rw (e₁, e₂, e₃, e₄, e₅) refl),
      refl,
      mod-lt target some_width,
      row_mono tw target (length handle + 2 + ls.len) some_width (omega arith) (omega arith),
      lands tw target (target / tw) (target % tw) some_width (omega arith)
          (sym (div-add-mod' target tw)) (mod-lt target some_width),
    )
