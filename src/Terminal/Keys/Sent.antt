-- ===== src/Terminal/Keys/Sent.antt =====
-- What is typed is what is sent: the keys of the editor and Enter, from the bytes that the terminal sends for them.
use epistemic_framework.Common.{
  ℕ, ◌+◌, ◌≤◌, ◌<◌, Bool, true, false, not, ◌&&◌, ◌||◌, List, [], ◌∷◌, ◌++◌, append_assoc, ◌==◌,
  if◌then◌else◌, length, length-append, drop, All, All-append, span_until_at, Bytes, ◌≡◌, refl, sym,
  ◌∙◌, ap, arith, inl, inr, Bool-cases,
}
use epistemic_framework.Common.Outcome.{Outcome, ok, ◌>>=◌}
use epistemic_framework.Common.Fgets.{c_string}
use epistemic_framework.Base64.{int_max}
use epistemic_framework.Terminal.Line.{LineState}
use epistemic_framework.Terminal.Line.Shows.{memory, line_state_init-Shows, line_state_reset-Shows}
use epistemic_framework.Terminal.Line.Cursor.{
  Zipper, backwards, length-backwards, text, Edit, insert, delete_back, delete_forward, move_left,
  move_right, move_home, move_end, edit_at, edit, Holds,
}
use epistemic_framework.Terminal.Keys.{
  esc_none, Screen, Reaction, quiet, blank, is_control, search_reaction, skip_blanks, line_text,
  line_reaction, enter, plain_byte, ends, note, run_bytes, first_screen,
}
use epistemic_framework.Terminal.Keys.Safe.{run_bytes_step}
use epistemic_framework.Terminal.Keys.Typing.{
  all_bytes, IsKey, edit_all, empty_line, IsReady, quiet_step, plain_step, read_keys,
}

abbrev IsTextByte : ℕ → Type 0
IsTextByte c = (c == 0) ≡ false

abbrev IsText : Zipper → Type 0
IsText z = All IsTextByte z.left × All IsTextByte z.right

backwards-All : (s : Bytes) → All IsTextByte s → All IsTextByte (backwards s)
backwards-All [] h = tt
backwards-All (c ∷ s) (hc, h) =
    All-append IsTextByte (backwards s) (c ∷ []) (backwards-All s h) (hc, tt)

edit_at-IsText :
    (e : Edit) (l r : Bytes)
    → IsKey e
    → All IsTextByte l
    → All IsTextByte r
    → IsText (edit_at e l r)
edit_at-IsText (insert c) l r key hl hr = ((ground arith, hl), hr)
edit_at-IsText delete_back [] r key hl hr = (hl, hr)
edit_at-IsText delete_back (c ∷ l) r key hl hr = (hl.1, hr)
edit_at-IsText delete_forward l [] key hl hr = (hl, hr)
edit_at-IsText delete_forward l (c ∷ r) key hl hr = (hl, hr.1)
edit_at-IsText move_left [] r key hl hr = (hl, hr)
edit_at-IsText move_left (c ∷ l) r key hl hr = (hl.1, (hl.0, hr))
edit_at-IsText move_right l [] key hl hr = (hl, hr)
edit_at-IsText move_right l (c ∷ r) key hl hr = ((hr.0, hl), hr.1)
edit_at-IsText move_home l r key hl hr =
    (tt, All-append IsTextByte (backwards l) r (backwards-All l hl) hr)
edit_at-IsText move_end l r key hl hr =
    (All-append IsTextByte (backwards r) l (backwards-All r hr) hl, tt)

edit_all-IsText : (es : List Edit) (z : Zipper) → All IsKey es → IsText z → IsText (edit_all es z)
edit_all-IsText [] z keys h = h
edit_all-IsText (e ∷ es) z (key, keys) (hl, hr) =
    edit_all-IsText es (edit e z) keys (edit_at-IsText e z.left z.right key hl hr)

-- The C string in the buffer is the text.
line_text-Holds : (z : Zipper) (ls : LineState) → Holds z ls → IsText z → line_text ls ≡ text z
line_text-Holds z ls (rest, h) (hl, hr) =
    let split : memory (backwards z.left) z.right rest ≡ text z ++ (0 ∷ rest) =
      sym (append_assoc (backwards z.left) z.right (0 ∷ rest)) in
    let whole = All-append IsTextByte (backwards z.left) z.right (backwards-All z.left hl) hr in
    let first : c_string (text z ++ (0 ∷ rest)) ≡ text z =
      unfold c_string in
      ap (λ (r : Bytes × Bytes). r.0) (span_until_at (λ c. c == 0) (text z) 0 rest whole refl) in
    ap c_string (ap (λ (q : LineState). q.buf) h ∙ split) ∙ first

search_note : (s : Bytes) → note (search_reaction s) [] ≡ search_reaction s ∷ []
search_note [] = refl
search_note (c ∷ s) = refl

note_line : (t : Bytes) → note (line_reaction t) [] ≡ line_reaction t ∷ []
unfolding line_reaction
note_line t = ground (arith, search_note (skip_blanks (drop 8 t)))

-- What Enter does with a text.
abbrev pub entered : Bytes → Reaction
entered [] = blank
entered (c ∷ s) = line_reaction (c ∷ s)

len-Holds : (z : Zipper) (ls : LineState) → Holds z ls → ls.len ≡ length (text z)
len-Holds z ls (rest, h) =
    ap (λ (q : LineState). q.len) h ∙ sym (length-append (backwards z.left) z.right)

none_of_empty : (l r : Bytes) → backwards l ++ r ≡ [] → (l ≡ []) × (r ≡ [])
none_of_empty [] [] e = (refl, refl)
none_of_empty [] (c ∷ r) e = absurd (omega (arith, ap length e))
none_of_empty (c ∷ l) r e =
    absurd
      (omega (arith, ap length e, length-append (backwards (c ∷ l)) r, length-backwards (c ∷ l)))

empty-Holds :
    (l r : Bytes) (ls : LineState)
    → l ≡ []
    → r ≡ []
    → Holds (record { left = l; right = r }) ls
    → Holds empty_line ls
empty-Holds l r ls e e' h = rw (e, e') at h

enter-entered :
    (t : Bytes) (z : Zipper) (s : Screen)
    → text z ≡ t
    → Holds z s.line
    → IsText z
    → ((enter s).1 ≡ entered t) × Holds empty_line (enter s).0.line
enter-entered [] z s e h typed =
    let none_there : (s.line.len == 0) ≡ true =
      ground (arith, len-Holds z s.line h ∙ ap length e) in
    let (none_left, none_right) = none_of_empty z.left z.right e in
    unfold enter in rw none_there (refl, empty-Holds z.left z.right s.line none_left none_right h)
enter-entered (c ∷ t) z s e h typed =
    let some_there : (s.line.len == 0) ≡ false =
      ground (arith, len-Holds z s.line h ∙ ap length e) in
    let read : line_text s.line ≡ c ∷ t = line_text-Holds z s.line h typed ∙ e in
    unfold enter in
    rw some_there
      (ap line_reaction read, line_state_reset-Shows (backwards z.left) z.right s.line h)

note-entered : (t : Bytes) → note (entered t) [] ≡ entered t ∷ []
note-entered [] = refl
note-entered (c ∷ t) = note_line (c ∷ t)

first-IsReady : (junk : ℕ) → IsReady empty_line (first_screen junk)
unfolding first_screen
first-IsReady junk = (line_state_init-Shows junk, refl)

only_reaction :
    (x re : Reaction) (s : Screen) (later : Outcome (Screen × List Reaction))
    → x ≡ re
    → later ≡ ok (s, [])
    → note re [] ≡ re ∷ []
    → if◌then◌else◌ {A = Outcome (Screen × List Reaction)}
        (ends x)
        (ok (s, x ∷ []))
        (later >>= λ r. ok (r.0, note x r.1))
      ≡ ok (s, re ∷ [])
only_reaction x re s later e none_later noted = elim (Bool-cases (ends re)) [
  | inl last ↦ rw (e, last) refl
  | inr more ↦ rw (e, more, none_later, noted) refl
]

last_byte :
    (junk tw : ℕ) (signed_char : Bool) (handle : Bytes) (some_width : 0 < tw) (s : Screen)
    (re : Reaction)
    → s.esc.state ≡ esc_none
    → (enter s).1 ≡ re
    → note re [] ≡ re ∷ []
    → run_bytes junk tw signed_char handle s (10 ∷ []) ≡ ok ((enter s).0, re ∷ [])
last_byte junk tw signed_char handle some_width s re plain e noted =
    let entered_now : plain_byte junk tw signed_char handle s 10 ≡ ok (enter s) =
      unfold plain_byte in refl in
    let on = plain_step junk tw signed_char handle some_width s 10 plain refl ∙ entered_now in
    let step =
      run_bytes_step junk tw signed_char handle some_width s (enter s).0 (enter s).1 10 [] on in
    let none_later : run_bytes junk tw signed_char handle (enter s).0 [] ≡ ok ((enter s).0, []) =
      unfold run_bytes in refl in
    step ∙ only_reaction (enter s).1 re (enter s).0 _ e none_later noted

-- Printable characters and the editing keys, then Enter, in a fresh line that fits an int with the handle: the only thing
-- that the loop goes on to do is what Enter does with the text that the edits make of the empty one (the
-- command that it is, or a message of exactly this text), and the line is empty again.
pub typed_line :
    (junk tw : ℕ) (signed_char : Bool) (handle : Bytes) (es : List Edit)
    → 0 < tw
    → All IsKey es
    → length handle + 3 + length es ≤ int_max
    → (s : Screen) × (run_bytes junk tw signed_char handle
          (first_screen junk)
          (all_bytes es ++ (10 ∷ []))
        ≡ ok (s, entered (text (edit_all es empty_line)) ∷ []))
      × Holds empty_line s.line
typed_line junk tw signed_char handle es some_width keys fits =
    let (s₁, reads, (h, plain)) =
      read_keys junk tw signed_char handle some_width es empty_line (first_screen junk)
        (first-IsReady junk) keys (omega arith) in
    let z = edit_all es empty_line in
    let (re, cleared) =
      enter-entered (text z) z s₁ refl h (edit_all-IsText es empty_line keys (tt, tt)) in
    (
      (enter s₁).0,
      reads (10 ∷ [])
          ∙ last_byte junk tw signed_char handle some_width s₁ (entered (text z)) plain re
              (note-entered (text z)),
      cleared,
    )

-- Where the type char is signed, the bytes from 128 on, which is every byte of a character outside ASCII, do nothing
-- between two keys: the loop goes on as if they had not come in.
pub high_bytes_vanish :
    (junk tw : ℕ) (handle cs rest : Bytes) (s : Screen)
    → 0 < tw
    → s.esc.state ≡ esc_none
    → All (λ c. (128 ≤ c) × (c < 256)) cs
    → run_bytes junk tw true handle s (cs ++ rest) ≡ run_bytes junk tw true handle s rest
high_bytes_vanish junk tw handle [] rest s some_width plain high = refl
high_bytes_vanish junk tw handle (c ∷ cs) rest s some_width plain ((from, below), high) =
    let (e₀, e₁, e₂) : ((c == 0x1b) ≡ false) × ((c == 10 || c == 13) ≡ false) × ((c == 4) ≡ false) =
      (ground arith, ground arith, ground arith) in
    let (e₃, e₄) : ((c == 3) ≡ false) × ((c == 127 || c == 8) ≡ false) =
      (ground arith, ground arith) in
    let e₅ : (is_control true c && not (c == 9)) ≡ true = ground arith in
    let dropped : plain_byte junk tw true handle s c ≡ ok (s, quiet) =
      unfold plain_byte in rw (e₁, e₂, e₃, e₄, e₅) refl in
    quiet_step junk tw true handle some_width s s c (cs ++ rest)
      (plain_step junk tw true handle some_width s c plain e₀ ∙ dropped)
    ∙ high_bytes_vanish junk tw handle cs rest s some_width plain high
