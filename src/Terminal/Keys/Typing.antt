-- ===== src/Terminal/Keys/Typing.antt =====
-- The keys of the editor, from the bytes that the terminal sends for them.
use epistemic_framework.Common.{
  ℕ, ◌+◌, ◌≤◌, ◌<◌, Bool, true, false, not, ◌&&◌, ◌||◌, List, [], ◌∷◌, ◌++◌, append_assoc, ltb, leb,
  ◌==◌, length, All, Bytes, is_digit, some, ◌≡◌, refl, ◌∙◌, ap, arith,
}
use epistemic_framework.Common.Outcome.{Outcome, ok, error, abort, ◌>>=◌}
use epistemic_framework.Common.Int.{ℤ, pos, negsuc}
use epistemic_framework.Base64.{int_max}
use epistemic_framework.Terminal.Line.{LineState, line_insert_char, line_delete_back}
use epistemic_framework.Terminal.Line.Cursor.{
  Zipper, backwards, length-backwards, Edit, insert, delete_back, delete_forward, move_left,
  move_right, move_home, move_end, edit, Holds, size, edit_at-size,
}
use epistemic_framework.Terminal.Keys.{
  EscState, esc_none, got_esc, got_bracket, EscParser, Screen, Reaction, quiet, add_digit, set_esc,
  is_control, dispatch, escape_at, handle_escape_input, plain_byte, on_byte, run_bytes,
}
use epistemic_framework.Terminal.Keys.Edits.{
  key_edit, edit_and_redraw, dispatch_lem, edit_and_redraw-Holds,
}
use epistemic_framework.Terminal.Keys.Safe.{edited_quiet, run_bytes_step}

-- The bytes that a terminal sends for a key.
abbrev pub key_bytes : Edit → Bytes
key_bytes (insert c) = c ∷ []
key_bytes delete_back = 127 ∷ []
key_bytes delete_forward = 0x1b ∷ b'[' ∷ b'3' ∷ b'~' ∷ []
key_bytes move_left = 0x1b ∷ b'[' ∷ b'D' ∷ []
key_bytes move_right = 0x1b ∷ b'[' ∷ b'C' ∷ []
key_bytes move_home = 0x1b ∷ b'[' ∷ b'H' ∷ []
key_bytes move_end = 0x1b ∷ b'[' ∷ b'F' ∷ []

abbrev pub all_bytes : List Edit → Bytes
all_bytes [] = []
all_bytes (e ∷ es) = key_bytes e ++ all_bytes es

-- The characters that can be typed: printable ASCII and the tab.
abbrev pub is_typed : ℕ → Bool
is_typed c = (leb 32 c && ltb c 127) || c == 9

abbrev pub IsKey : Edit → Type 0
IsKey (insert c) = is_typed c ≡ true
IsKey delete_back = Unit {0}
IsKey delete_forward = Unit {0}
IsKey move_left = Unit {0}
IsKey move_right = Unit {0}
IsKey move_home = Unit {0}
IsKey move_end = Unit {0}

abbrev pub edit_all : List Edit → Zipper → Zipper
edit_all [] z = z
edit_all (e ∷ es) z = edit_all es (edit e z)

abbrev pub empty_line : Zipper
empty_line = record { left = []; right = [] }

-- Between two keys.
abbrev pub IsReady : Zipper → Screen → Type 0
IsReady z s = Holds z s.line × (s.esc.state ≡ esc_none)

same_later : (o : Outcome (Screen × List Reaction)) → (o >>= λ later. ok (later.0, later.1)) ≡ o
same_later (ok r) = refl
same_later error = refl
same_later abort = refl

module _ (junk tw : ℕ) (signed_char : Bool) (handle : Bytes) (some_width : 0 < tw) where
  pub quiet_step :
      (s s' : Screen) (c : ℕ) (cs : Bytes)
      → on_byte junk tw signed_char handle s c ≡ ok (s', quiet)
      → run_bytes junk tw signed_char handle s (c ∷ cs) ≡ run_bytes junk tw signed_char handle s' cs
  quiet_step s s' c cs e =
      run_bytes_step junk tw signed_char handle some_width s s' quiet c cs e
      ∙ same_later (run_bytes junk tw signed_char handle s' cs)

  pub at_state :
      (st : EscState) (s : Screen) (c : ℕ)
      → s.esc.state ≡ st
      → handle_escape_input tw handle s c ≡ escape_at tw handle st s c
  at_state st s c e = unfold handle_escape_input in ap (λ q. escape_at tw handle q s c) e

  escape_byte :
      (s : Screen)
      → s.esc.state ≡ esc_none
      → on_byte junk tw signed_char handle s 0x1b ≡ ok (set_esc s got_esc (negsuc 0), quiet)
  escape_byte s ready = unfold on_byte in rw (at_state esc_none s 0x1b ready) refl

  bracket_byte :
      (s : Screen) (p : ℤ)
      → on_byte junk tw signed_char handle (set_esc s got_esc p) b'['
        ≡ ok (set_esc s got_bracket (negsuc 0), quiet)
  bracket_byte s p = unfold on_byte handle_escape_input in refl

  -- The byte that ends a sequence for an edit.
  final_byte :
      (e : Edit) (z : Zipper) (s : Screen) (p : ℤ) (c : ℕ)
      → Holds z s.line
      → is_digit c ≡ false
      → key_edit p c ≡ some e
      → length handle + 3 + size z ≤ int_max
      → (s' : Screen) × (on_byte junk tw signed_char handle (set_esc s got_bracket p) c
          ≡ ok (s', quiet))
        × IsReady (edit e z) s'
  final_byte e z s p c h final key fits =
      let s₁ = set_esc s got_bracket p in
      let (s', done, h', esc, _) =
        edit_and_redraw-Holds junk tw handle (some e) z s₁ h some_width fits in
      let dispatched : dispatch tw handle s₁ c ≡ ok s' =
        dispatch_lem junk tw handle s₁ c ∙ ap (edit_and_redraw junk tw handle s₁) key ∙ done in
      (
        set_esc s' esc_none s'.esc.param,
        (unfold on_byte handle_escape_input in rw (final, dispatched) refl),
        (h', refl),
      )

  abbrev Reads : Screen → Bytes → Edit → Zipper → Type 0
  Reads s cs e z =
      (s' : Screen) × ((rest : Bytes)
        → run_bytes junk tw signed_char handle s (cs ++ rest)
          ≡ run_bytes junk tw signed_char handle s' rest)
      × IsReady (edit e z) s'

  -- A sequence of three bytes.
  short_sequence :
      (e : Edit) (z : Zipper) (s : Screen) (c : ℕ)
      → IsReady z s
      → is_digit c ≡ false
      → key_edit (negsuc 0) c ≡ some e
      → length handle + 3 + size z ≤ int_max
      → Reads s (0x1b ∷ b'[' ∷ c ∷ []) e z
  short_sequence e z s c (h, plain) final key fits =
      let s₁ = set_esc s got_esc (negsuc 0) in
      let s₂ = set_esc s got_bracket (negsuc 0) in
      let (s', last, ready) = final_byte e z s (negsuc 0) c h final key fits in
      (
        s',
        (λ rest.
            quiet_step s s₁ 0x1b (b'[' ∷ c ∷ rest) (escape_byte s plain)
            ∙ quiet_step s₁ s₂ b'[' (c ∷ rest) (bracket_byte s (negsuc 0))
            ∙ quiet_step s₂ s' c rest last),
        ready,
      )

  digit_byte :
      (s : Screen)
      → on_byte junk tw signed_char handle (set_esc s got_bracket (negsuc 0)) b'3'
        ≡ ok (set_esc s got_bracket (pos 3), quiet)
  digit_byte s = unfold on_byte handle_escape_input add_digit in refl

  delete_sequence :
      (z : Zipper) (s : Screen)
      → IsReady z s
      → length handle + 3 + size z ≤ int_max
      → Reads s (key_bytes delete_forward) delete_forward z
  delete_sequence z s (h, plain) fits =
      let s₁ = set_esc s got_esc (negsuc 0) in
      let s₂ = set_esc s got_bracket (negsuc 0) in
      let s₃ = set_esc s got_bracket (pos 3) in
      let (s', last, ready) = final_byte delete_forward z s (pos 3) b'~' h refl refl fits in
      (
        s',
        (λ rest.
            quiet_step s s₁ 0x1b (b'[' ∷ b'3' ∷ b'~' ∷ rest) (escape_byte s plain)
            ∙ quiet_step s₁ s₂ b'[' (b'3' ∷ b'~' ∷ rest) (bracket_byte s (negsuc 0))
            ∙ quiet_step s₂ s₃ b'3' (b'~' ∷ rest) (digit_byte s)
            ∙ quiet_step s₃ s' b'~' rest last),
        ready,
      )

  pub plain_step :
      (s : Screen) (c : ℕ)
      → s.esc.state ≡ esc_none
      → (c == 0x1b) ≡ false
      → on_byte junk tw signed_char handle s c ≡ plain_byte junk tw signed_char handle s c
  plain_step s c plain other = unfold on_byte in rw (at_state esc_none s c plain, other) refl

  insert_key :
      (z : Zipper) (s : Screen) (c : ℕ)
      → IsReady z s
      → is_typed c ≡ true
      → length handle + 3 + size z ≤ int_max
      → Reads s (c ∷ []) (insert c) z
  insert_key z s c (h, plain) typed fits =
      let (s', e, h', esc, _) =
        edit_and_redraw-Holds junk tw handle (some (insert c)) z s h some_width fits in
      let (e₀, e₁, e₂) : ((c == 0x1b) ≡ false)
          × ((c == 10 || c == 13) ≡ false)
          × ((c == 4) ≡ false) =
        (ground arith, ground arith, ground arith) in
      let (e₃, e₄) : ((c == 3) ≡ false) × ((c == 127 || c == 8) ≡ false) =
        (ground arith, ground arith) in
      let e₅ : (is_control signed_char c && not (c == 9)) ≡ false = ground arith in
      let shown =
        edited_quiet junk tw signed_char handle some_width (line_insert_char junk s.line c) s s'
          e in
      let step : plain_byte junk tw signed_char handle s c ≡ ok (s', quiet) =
        unfold plain_byte in rw (e₁, e₂, e₃, e₄, e₅) shown in
      (
        s',
        (λ rest. quiet_step s s' c rest (plain_step s c plain e₀ ∙ step)),
        (h', ap (λ (q : EscParser). q.state) esc ∙ plain),
      )

  back_step :
      (s s' : Screen)
      → s.esc.state ≡ esc_none
      → plain_byte junk tw signed_char handle s 127 ≡ ok (s', quiet)
      → (rest : Bytes)
      → run_bytes junk tw signed_char handle s (127 ∷ rest)
        ≡ run_bytes junk tw signed_char handle s' rest
  back_step s s' plain e rest = quiet_step s s' 127 rest (plain_step s 127 plain refl ∙ e)

  back_key :
      (l r : Bytes) (s : Screen)
      → IsReady (record { left = l; right = r }) s
      → length handle + 3 + (length l + length r) ≤ int_max
      → Reads s (127 ∷ []) delete_back (record { left = l; right = r })
  back_key [] r s ((w, h), plain) fits =
      let at : s.line.cursor ≡ 0 = ap (λ (q : LineState). q.cursor) h in
      let none_left : ltb 0 s.line.cursor ≡ false = ground arith in
      let step : plain_byte junk tw signed_char handle s 127 ≡ ok (s, quiet) =
        unfold plain_byte in rw none_left refl in
      (s, back_step s s plain step, ((w, h), plain))
  back_key (c ∷ l) r s ((w, h), plain) fits =
      let z : Zipper = record { left = c ∷ l; right = r } in
      let (s', e, h', esc, _) =
        edit_and_redraw-Holds junk tw handle (some delete_back) z s (w, h) some_width fits in
      let at : s.line.cursor ≡ length (backwards (c ∷ l)) = ap (λ (q : LineState). q.cursor) h in
      let some_left : ltb 0 s.line.cursor ≡ true = ground (arith, length-backwards (c ∷ l)) in
      let shown =
        edited_quiet junk tw signed_char handle some_width (line_delete_back s.line) s s' e in
      let step : plain_byte junk tw signed_char handle s 127 ≡ ok (s', quiet) =
        unfold plain_byte in rw some_left shown in
      (s', back_step s s' plain step, (h', ap (λ (q : EscParser). q.state) esc ∙ plain))

  read_key :
      (e : Edit) (z : Zipper) (s : Screen)
      → IsReady z s
      → IsKey e
      → length handle + 3 + size z ≤ int_max
      → Reads s (key_bytes e) e z
  read_key (insert c) z s ready typed fits = insert_key z s c ready typed fits
  read_key delete_back z s ready key fits = back_key z.left z.right s ready fits
  read_key delete_forward z s ready key fits = delete_sequence z s ready fits
  read_key move_left z s ready key fits = short_sequence move_left z s b'D' ready refl refl fits
  read_key move_right z s ready key fits = short_sequence move_right z s b'C' ready refl refl fits
  read_key move_home z s ready key fits = short_sequence move_home z s b'H' ready refl refl fits
  read_key move_end z s ready key fits = short_sequence move_end z s b'F' ready refl refl fits

  pub read_keys :
      (es : List Edit) (z : Zipper) (s : Screen)
      → IsReady z s
      → All IsKey es
      → length handle + 3 + size z + length es ≤ int_max
      → (s' : Screen) × ((rest : Bytes)
          → run_bytes junk tw signed_char handle s (all_bytes es ++ rest)
            ≡ run_bytes junk tw signed_char handle s' rest)
        × IsReady (edit_all es z) s'
  read_keys [] z s ready keys fits = (s, (λ rest. refl), ready)
  read_keys (e ∷ es) z s ready (key, keys) fits =
      let (s₁, first, ready₁) = read_key e z s ready key (omega arith) in
      let small = edit_at-size e z.left z.right in
      let (s', later, ready') = read_keys es (edit e z) s₁ ready₁ keys (omega arith) in
      (
        s',
        (λ rest.
            ap (run_bytes junk tw signed_char handle s)
              (append_assoc (key_bytes e) (all_bytes es) rest)
            ∙ first (all_bytes es ++ rest)
            ∙ later rest),
        ready',
      )
