-- ===== src/Terminal/Keys.antt =====
-- What the event loop of terminal.c does with a byte of input: the escape parser, the editing keys, and
-- the lines and control bytes that it acts on. The width of the terminal stays as it is, and
-- `signed_char` says whether the type char is signed.
pub mod Edits
pub mod Safe
pub mod Typing
pub mod Sent
use epistemic_framework.Common.{
  ℕ, zero, suc, ◌+◌, ◌-◌, ◌*◌, Bool, true, false, not, ◌&&◌, ◌||◌, List, [], ◌∷◌, ltb, leb, ◌==◌,
  if◌then◌else◌, length, drop, Bytes, codes, str_eq, has_prefix, is_digit, Option, none, some,
}
use epistemic_framework.Common.Outcome.{Outcome, ok, ◌>>=◌}
use epistemic_framework.Common.Int.{ℤ, pos, negsuc}
use epistemic_framework.Common.Fgets.{c_string}
use epistemic_framework.Terminal.Line.{
  LineState, line_state_init, line_insert_char, line_state_reset, line_delete_back,
  line_delete_forward, line_move_left, line_move_right, line_move_home, line_move_end,
}
use epistemic_framework.Terminal.Redraw.{line_redraw}

pub data EscState : Type 0 where
  esc_none : EscState
  got_esc : EscState
  got_bracket : EscState

pub record EscParser : Type 0 where
  pub state : EscState
  pub param : ℤ

-- The line, the parser and `g_cursor_row`.
pub record Screen : Type 0 where
  pub line : LineState
  pub esc : EscParser
  pub row : ℕ

-- What the loop goes on to do: nothing, send a message, poll for an empty line, run a command, or end, with a
-- pending message sent first.
pub data Reaction : Type 0 where
  quiet : Reaction
  submit : Bytes → Reaction
  blank : Reaction
  leave : Reaction
  help : Reaction
  compose : Reaction
  search_for : Bytes → Reaction
  search_usage : Reaction
  end_input : Option Bytes → Reaction
  interrupt : Option Bytes → Reaction

abbrev pub magnitude : ℤ → ℕ
magnitude (pos n) = n
magnitude (negsuc n) = 0

-- The parameter after one more digit; a large one ends the sequence.
unfoldable pub add_digit : EscParser → ℕ → EscParser
add_digit esc c =
    let param = magnitude esc.param in
    if ltb 9999 param
    then record { state = esc_none; param = pos param }
    else record { state = got_bracket; param = pos (param * 10 + (c - b'0')) }

abbrev pub set_esc : Screen → EscState → ℤ → Screen
set_esc s state param = record s { esc = record { state = state; param = param } }

abbrev pub param_is : ℕ → ℤ → Bool
param_is n (pos m) = m == n
param_is n (negsuc m) = false

abbrev pub is_control : Bool → ℕ → Bool
is_control signed_char c = ltb c 32 || (signed_char && leb 128 c)

abbrev pub skip_blanks : Bytes → Bytes
skip_blanks [] = []
skip_blanks (c ∷ s) = if c == b' ' then skip_blanks s else c ∷ s

abbrev pub search_reaction : Bytes → Reaction
search_reaction [] = search_usage
search_reaction (c ∷ s) = search_for (c ∷ s)

abbrev pub line_text : LineState → Bytes
line_text ls = c_string ls.buf

-- The commands, and a line that is none.
unfoldable pub line_reaction : Bytes → Reaction
line_reaction text =
    if str_eq text (codes "/exit")
    then leave
    else if str_eq text (codes "/help")
    then help
    else if str_eq text (codes "/edit")
    then compose
    else if has_prefix (codes "/search ") text
    then search_reaction (skip_blanks (drop 8 text))
    else if str_eq text (codes "/search")
    then search_usage
    else submit text

abbrev pub pending : LineState → Option Bytes
pending ls = if ltb 0 ls.len then some (line_text ls) else none

-- Enter. The newline takes the cursor to a fresh line.
unfoldable pub enter : Screen → Screen × Reaction
enter s =
    if s.line.len == 0
    then (record s { row = 0 }, blank)
    else (record s { line = line_state_reset s.line; row = 0 }, line_reaction (line_text s.line))

unfoldable pub first_screen : ℕ → Screen
first_screen junk = record {
  line = line_state_init junk;
  esc = record { state = esc_none; param = negsuc 0 };
  row = 0;
}

module _ (tw : ℕ) (handle : Bytes) where
  unfoldable pub redraw : Screen → LineState → Outcome Screen
  redraw s ls =
      line_redraw tw handle s.row ls >>= λ d. ok (record s { line = ls; row = d.target_row })

  -- The `~` that ends a sequence with a parameter.
  unfoldable pub tilde : Screen → Outcome Screen
  tilde s =
      if param_is 3 s.esc.param
      then (line_delete_forward s.line >>= λ ls. redraw s ls)
      else if param_is 1 s.esc.param
      then redraw s (line_move_home s.line)
      else if param_is 4 s.esc.param
      then redraw s (line_move_end s.line)
      else ok s

  -- The byte that ends a sequence.
  unfoldable pub dispatch : Screen → ℕ → Outcome Screen
  dispatch s c =
      if c == b'C'
      then redraw s (line_move_right s.line)
      else if c == b'D'
      then redraw s (line_move_left s.line)
      else if c == b'H'
      then redraw s (line_move_home s.line)
      else if c == b'F'
      then redraw s (line_move_end s.line)
      else if c == b'~'
      then tilde s
      else ok s

  abbrev pub escape_at : EscState → Screen → ℕ → Outcome (Screen × Bool)
  escape_at esc_none s c =
      if c == 0x1b then ok (set_esc s got_esc (negsuc 0), true) else ok (s, false)
  escape_at got_esc s c =
      if c == b'['
      then ok (set_esc s got_bracket (negsuc 0), true)
      else ok (set_esc s esc_none s.esc.param, true)
  escape_at got_bracket s c =
      if is_digit c
      then ok (record s { esc = add_digit s.esc c }, true)
      else (dispatch s c >>= λ s'. ok (set_esc s' esc_none s'.esc.param, true))

  unfoldable pub handle_escape_input : Screen → ℕ → Outcome (Screen × Bool)
  handle_escape_input s c = escape_at s.esc.state s c

abbrev pub ends : Reaction → Bool
ends leave = true
ends (end_input text) = true
ends (interrupt text) = true
ends quiet = false
ends (submit text) = false
ends blank = false
ends help = false
ends compose = false
ends (search_for pattern) = false
ends search_usage = false

abbrev pub note : Reaction → List Reaction → List Reaction
note quiet rs = rs
note (submit text) rs = submit text ∷ rs
note blank rs = blank ∷ rs
note leave rs = leave ∷ rs
note help rs = help ∷ rs
note compose rs = compose ∷ rs
note (search_for pattern) rs = search_for pattern ∷ rs
note search_usage rs = search_usage ∷ rs
note (end_input text) rs = end_input text ∷ rs
note (interrupt text) rs = interrupt text ∷ rs

module _ (junk tw : ℕ) (signed_char : Bool) (handle : Bytes) where
  unfoldable pub plain_byte : Screen → ℕ → Outcome (Screen × Reaction)
  plain_byte s c =
      if c == 10 || c == 13
      then ok (enter s)
      else if c == 4
      then ok (s, end_input (pending s.line))
      else if c == 3
      then ok (s, interrupt (pending s.line))
      else if c == 127 || c == 8
      then (if ltb 0 s.line.cursor
          then (line_delete_back s.line >>= λ ls. redraw tw handle s ls >>= λ s'. ok (s', quiet))
          else ok (s, quiet))
      else if is_control signed_char c && not (c == 9)
      then ok (s, quiet)
      else (line_insert_char junk s.line c >>= λ ls. redraw tw handle s ls >>= λ s'. ok (s', quiet))

  abbrev pub after_escape : Screen × Bool → ℕ → Outcome (Screen × Reaction)
  after_escape (s, true) c = ok (s, quiet)
  after_escape (s, false) c = plain_byte s c

  unfoldable pub on_byte : Screen → ℕ → Outcome (Screen × Reaction)
  on_byte s c = handle_escape_input tw handle s c >>= λ r. after_escape r c

  -- The loop on the bytes that come in: where it is then, and what it has done.
  unfoldable pub run_bytes : Screen → Bytes → Outcome (Screen × List Reaction)
  run_bytes s [] = ok (s, [])
  run_bytes s (c ∷ cs) = on_byte s c >>= λ r.
      if ends r.1
      then ok (r.0, r.1 ∷ [])
      else (run_bytes r.0 cs >>= λ later. ok (later.0, note r.1 later.1))
