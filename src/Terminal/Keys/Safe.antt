-- ===== src/Terminal/Keys/Safe.antt =====
-- Whatever bytes come in, the editing keys and the parser stay within their bounds.
use epistemic_framework.Common.{
  ℕ, ◌+◌, ◌≤◌, ◌<◌, Bool, true, false, not, ◌&&◌, ◌||◌, List, [], ◌∷◌, ltb, ◌==◌, if◌then◌else◌,
  length, Bytes, is_digit, some, ◌≡◌, refl, ◌∙◌, arith, ◌⊎◌, inl, inr, Bool-cases,
}
use epistemic_framework.Common.Outcome.{Outcome, ok, ◌>>=◌}
use epistemic_framework.Common.Int.{negsuc}
use epistemic_framework.Base64.{int_max}
use epistemic_framework.Terminal.Line.{LineState, line_insert_char, line_delete_back}
use epistemic_framework.Terminal.Line.Shows.{line_state_init-Shows, line_state_reset-Shows}
use epistemic_framework.Terminal.Line.Cursor.{
  Zipper, backwards, Edit, insert, delete_back, edit_at, Holds, size,
}
use epistemic_framework.Terminal.Keys.{
  EscState, esc_none, got_esc, got_bracket, EscParser, Screen, Reaction, quiet, end_input,
  interrupt, magnitude, add_digit, set_esc, is_control, pending, enter, redraw, dispatch, escape_at,
  handle_escape_input, plain_byte, on_byte, ends, note, run_bytes, first_screen,
}
use epistemic_framework.Terminal.Keys.Edits.{
  bind_then, key_edit, edit_and_redraw, dispatch_lem, edit_or, edit_and_redraw-Holds,
}

-- The line is a text of at most `n` bytes with a cursor in it, and the parameter fits an int.
abbrev pub IsSound : ℕ → Screen → Type 0
IsSound n s = (z : Zipper) × Holds z s.line × (size z ≤ n) × (magnitude s.esc.param ≤ 99999)

IsSound-mono : (m n : ℕ) (s : Screen) → m ≤ n → IsSound m s → IsSound n s
IsSound-mono m n s le (z, h, small, param) = (z, h, omega arith, param)

add_digit_bound :
    (esc : EscParser) (c : ℕ)
    → is_digit c ≡ true
    → magnitude esc.param ≤ 99999
    → magnitude (add_digit esc c).param ≤ 99999
unfolding add_digit
add_digit_bound esc c digit bound = elim (Bool-cases (ltb 9999 (magnitude esc.param))) [
  | inl large ↦ rw large bound
  | inr fits ↦ rw fits (ground arith)
]

module _ (junk tw : ℕ) (signed_char : Bool) (handle : Bytes) (some_width : 0 < tw) where
  abbrev Escaped : ℕ → Outcome (Screen × Bool) → Type 0
  Escaped n o =
      ((s' : Screen) × (o ≡ ok (s', true)) × IsSound (n + 1) s')
      ⊎ ((s' : Screen) × (o ≡ ok (s', false)) × IsSound n s')

  dispatch-IsSound :
      (n : ℕ) (s : Screen) (c : ℕ)
      → IsSound n s
      → length handle + 3 + n ≤ int_max
      → (s' : Screen) × (dispatch tw handle s c ≡ ok s') × IsSound (n + 1) s'
  dispatch-IsSound n s c (z, h, small, param) fits =
      let o = key_edit s.esc.param c in
      let (s', e, h', esc, small') =
        edit_and_redraw-Holds junk tw handle o z s h some_width (omega arith) in
      let kept : magnitude s'.esc.param ≤ 99999 = rw esc param in
      (s', dispatch_lem junk tw handle s c ∙ e, (edit_or o z, h', omega arith, kept))

  escape_at-IsSound :
      (st : EscState) (n : ℕ) (s : Screen) (c : ℕ)
      → IsSound n s
      → length handle + 3 + n ≤ int_max
      → Escaped n (escape_at tw handle st s c)
  escape_at-IsSound esc_none n s c (z, h, small, param) fits = elim (Bool-cases (c == 0x1b)) [
    | inl escape ↦
        inl (set_esc s got_esc (negsuc 0), rw escape refl, (z, h, omega arith, omega arith))
    | inr other ↦ inr (s, rw other refl, (z, h, small, param))
  ]
  escape_at-IsSound got_esc n s c (z, h, small, param) fits = elim (Bool-cases (c == b'[')) [
    | inl bracket ↦
        inl (set_esc s got_bracket (negsuc 0), rw bracket refl, (z, h, omega arith, omega arith))
    | inr other ↦ inl (set_esc s esc_none s.esc.param, rw other refl, (z, h, omega arith, param))
  ]
  escape_at-IsSound got_bracket n s c sound fits = elim (Bool-cases (is_digit c)) [
    | inl digit ↦
        let (z, h, small, param) = sound in
        inl (
          record s { esc = add_digit s.esc c },
          rw digit refl,
          (z, h, omega arith, add_digit_bound s.esc c digit param),
        )
    | inr final ↦
        let (s', e, (z, h, small, param)) = dispatch-IsSound n s c sound fits in
        inl (set_esc s' esc_none s'.esc.param, rw (final, e) refl, (z, h, small, param))
  ]

  insert-IsSound :
      (n : ℕ) (s : Screen) (e : Edit)
      → IsSound n s
      → length handle + 3 + n ≤ int_max
      → (s' : Screen) × (edit_and_redraw junk tw handle s (some e) ≡ ok s') × IsSound (n + 1) s'
  insert-IsSound n s e (z, h, small, param) fits =
      let (s', done, h', esc, small') =
        edit_and_redraw-Holds junk tw handle (some e) z s h some_width (omega arith) in
      let kept : magnitude s'.esc.param ≤ 99999 = rw esc param in
      (s', done, (edit_at e z.left z.right, h', omega arith, kept))

  enter-IsSound : (n : ℕ) (s : Screen) → IsSound n s → IsSound (n + 1) (enter s).0
  unfolding enter
  enter-IsSound n s (z, h, small, param) = elim (Bool-cases (s.line.len == 0)) [
    | inl empty ↦ rw empty (z, h, omega arith, param)
    | inr text ↦ rw text (
      record { left = []; right = [] },
      line_state_reset-Shows (backwards z.left) z.right s.line h,
      omega arith,
      param,
    )
  ]

  pub edited_quiet :
      (m : Outcome LineState) (s s' : Screen)
      → (m >>= λ ls. redraw tw handle s ls) ≡ ok s'
      → ◌≡◌ {A = Outcome (Screen × Reaction)}
          (m >>= λ ls. redraw tw handle s ls >>= λ t. ok (t, quiet))
          (ok (s', quiet))
  edited_quiet m s s' e =
      let done : Screen → Outcome (Screen × Reaction) = λ t. ok (t, quiet) in
      bind_then m (λ ls. redraw tw handle s ls) done e

  plain_byte-IsSound :
      (n : ℕ) (s : Screen) (c : ℕ)
      → IsSound n s
      → length handle + 3 + n ≤ int_max
      → (s' : Screen) × (re : Reaction) × (plain_byte junk tw signed_char handle s c ≡ ok (s', re))
        × IsSound (n + 1) s'
  plain_byte-IsSound n s c sound fits =
      let same = IsSound-mono n (n + 1) s (omega arith) sound in
      elim (Bool-cases (c == 10 || c == 13)) [
        | inl newline ↦ (
          (enter s).0,
          (enter s).1,
          (unfold plain_byte in rw newline refl),
          enter-IsSound n s sound,
        )
        | inr e₁ ↦ elim (Bool-cases (c == 4)) [
          | inl end ↦
              (s, end_input (pending s.line), (unfold plain_byte in rw (e₁, end) refl), same)
          | inr e₂ ↦ elim (Bool-cases (c == 3)) [
            | inl stop ↦
                (s, interrupt (pending s.line), (unfold plain_byte in rw (e₁, e₂, stop) refl), same)
            | inr e₃ ↦ elim (Bool-cases (c == 127 || c == 8)) [
              | inl back ↦ elim (Bool-cases (ltb 0 s.line.cursor)) [
                | inl some_left ↦
                    let (s', e, sound') = insert-IsSound n s delete_back sound fits in
                    let shown = edited_quiet (line_delete_back s.line) s s' e in
                    (
                      s',
                      quiet,
                      (unfold plain_byte in rw (e₁, e₂, e₃, back, some_left) shown),
                      sound',
                    )
                | inr at_start ↦
                    (s, quiet, (unfold plain_byte in rw (e₁, e₂, e₃, back, at_start) refl), same)
              ]
              | inr e₄ ↦ elim (Bool-cases (is_control signed_char c && not (c == 9))) [
                | inl control ↦
                    (s, quiet, (unfold plain_byte in rw (e₁, e₂, e₃, e₄, control) refl), same)
                | inr printable ↦
                    let (s', e, sound') = insert-IsSound n s (insert c) sound fits in
                    let shown = edited_quiet (line_insert_char junk s.line c) s s' e in
                    (s', quiet, (unfold plain_byte in rw (e₁, e₂, e₃, e₄, printable) shown), sound')
              ]
            ]
          ]
        ]
      ]

  on_byte-IsSound :
      (n : ℕ) (s : Screen) (c : ℕ)
      → IsSound n s
      → length handle + 3 + n ≤ int_max
      → (s' : Screen) × (re : Reaction) × (on_byte junk tw signed_char handle s c ≡ ok (s', re))
        × IsSound (n + 1) s'
  on_byte-IsSound n s c sound fits = elim (escape_at-IsSound s.esc.state n s c sound fits) [
    | inl (s', e, sound') ↦ (s', quiet, (unfold on_byte handle_escape_input in rw e refl), sound')
    | inr (s₁, e, sound₁) ↦
        let (s', re, e', sound') = plain_byte-IsSound n s₁ c sound₁ fits in
        (s', re, (unfold on_byte handle_escape_input in rw e e'), sound')
  ]

  pub run_bytes_step :
      (s s' : Screen) (re : Reaction) (c : ℕ) (cs : Bytes)
      → on_byte junk tw signed_char handle s c ≡ ok (s', re)
      → run_bytes junk tw signed_char handle s (c ∷ cs) ≡ (
          if ends re
          then ok (s', re ∷ [])
          else (run_bytes junk tw signed_char handle s' cs >>= λ later.
              ok (later.0, note re later.1)))
  run_bytes_step s s' re c cs e = unfold run_bytes in rw e refl

  run_bytes-IsSound :
      (cs : Bytes) (n : ℕ) (s : Screen)
      → IsSound n s
      → length handle + 3 + n + length cs ≤ int_max
      → (s' : Screen) × (rs : List Reaction) × (run_bytes junk tw signed_char handle s cs
          ≡ ok (s', rs))
        × IsSound (n + length cs) s'
  run_bytes-IsSound [] n s sound fits =
      (s, [], (unfold run_bytes in refl), IsSound-mono n (n + 0) s (omega arith) sound)
  run_bytes-IsSound (c ∷ cs) n s sound fits =
      let (s₁, re, e, sound₁) = on_byte-IsSound n s c sound (omega arith) in
      let step = run_bytes_step s s₁ re c cs e in
      elim (Bool-cases (ends re)) [
        | inl last ↦ (
          s₁,
          re ∷ [],
          rw (step, last) refl,
          IsSound-mono (n + 1) (n + length (c ∷ cs)) s₁ (omega arith) sound₁,
        )
        | inr more ↦
            let (s', rs, e', sound') = run_bytes-IsSound cs (n + 1) s₁ sound₁ (omega arith) in
            (
              s',
              note re rs,
              rw (step, more, e') refl,
              IsSound-mono (n + 1 + length cs) (n + length (c ∷ cs)) s' (omega arith) sound',
            )
      ]

first_screen-IsSound : (junk : ℕ) → IsSound 0 (first_screen junk)
unfolding first_screen
first_screen-IsSound junk =
    (record { left = []; right = [] }, line_state_init-Shows junk, omega arith, omega arith)

-- Whatever bytes come in, fewer than an int can count with the handle: no assertion fires, at the end the line is a text
-- with a cursor in it, NUL-terminated in its memory, no longer than the bytes that came in, and the parameter of
-- an escape sequence is at most 99999.
pub run_bytes_safe :
    (junk tw : ℕ) (signed_char : Bool) (handle cs : Bytes)
    → 0 < tw
    → length handle + 3 + length cs ≤ int_max
    → (s : Screen) × (rs : List Reaction) × (run_bytes junk tw signed_char handle
          (first_screen junk)
          cs
        ≡ ok (s, rs))
      × IsSound (length cs) s
run_bytes_safe junk tw signed_char handle cs some_width fits =
    let (s, rs, e, sound) =
      run_bytes-IsSound junk tw signed_char handle some_width cs 0 (first_screen junk)
        (first_screen-IsSound junk) (omega arith) in
    (s, rs, e, IsSound-mono (0 + length cs) (length cs) s (omega arith) sound)
