-- ===== src/Terminal/Tests.antt =====
-- The theorems on the terminal client at concrete inputs.
use epistemic_framework.Common.{◌⊎◌, ◌*◌}
use epistemic_framework.Common.{
  ℕ, ◌≤◌, ◌<◌, true, List, [], ◌∷◌, ◌++◌, Bytes, codes, Option, some, ◌≡◌, ◌≢◌, str_eq,
  ne_of_str_eq, refl, arith,
}
use epistemic_framework.Common.Outcome.{ok}
use epistemic_framework.Common.Int.{pos}
use epistemic_framework.ChatFile.Render.{render}
use epistemic_framework.ChatFile.Tests.{
  alice, stamp, hello, one_message, one_message-IsChat, bob, reply, reply-IsPost, reply-HasRoom,
}
use epistemic_framework.Terminal.Line.{LineState, double_cap}
use epistemic_framework.Terminal.Line.Grow.{double_cap_total}
use epistemic_framework.Terminal.Line.Cursor.{Edit, insert, delete_back, move_left, Holds}
use epistemic_framework.Terminal.Redraw.{Drawn, line_redraw, IsAt, line_redraw_lands}
use epistemic_framework.Terminal.Keys.{Screen, Reaction, run_bytes, first_screen}
use epistemic_framework.Terminal.Keys.Safe.{IsSound, run_bytes_safe}
use epistemic_framework.Terminal.Keys.Typing.{all_bytes, empty_line}
use epistemic_framework.Terminal.Keys.Sent.{entered, typed_line, high_bytes_vanish}
use epistemic_framework.Terminal.Display.{others, poll_and_display, send_and_display}
use epistemic_framework.Terminal.Display.Shown.{send_hides_unseen}

double_cap_total_example :
    (cap : ℕ) × (double_cap 259 256 257 ≡ ok cap)
    × (257 < cap)
    × (256 ≤ cap)
    × ((cap ≡ 256) ⊎ (cap ≤ 2 * 257))
double_cap_total_example =
    double_cap_total 259 256 257 (omega arith) (omega arith) (omega arith) (omega arith)

abbrev ten_wide : LineState
ten_wide = record { buf = b'1' ∷ b'2' ∷ 0 ∷ []; len = 2; cap = 3; cursor = 2 }

-- With the prompt of a handle of six bytes the line fills a row of ten.
line_redraw_lands_example :
    (d : Drawn) × (line_redraw 10 (codes "claude") 0 ten_wide ≡ ok d)
    × (d.up ≡ 0)
    × (d.target_col < 10)
    × (d.target_row ≤ d.end_row)
    × IsAt 10 10 d.target_row d.target_col
line_redraw_lands_example =
    line_redraw_lands 10 (codes "claude") 0 ten_wide (omega arith) (omega arith) (omega arith)

-- An escape sequence, a byte above ASCII, control bytes and Enter.
abbrev mixed : Bytes
mixed = b'a' ∷ 0x1b ∷ b'[' ∷ b'3' ∷ b'~' ∷ 0xc3 ∷ 1 ∷ 127 ∷ 10 ∷ 0x1b ∷ []

run_bytes_safe_example :
    (s : Screen) × (rs : List Reaction) × (run_bytes 7 80 true alice (first_screen 7) mixed
      ≡ ok (s, rs))
    × IsSound 10 s
run_bytes_safe_example = run_bytes_safe 7 80 true alice mixed (omega arith) (omega arith)

abbrev some_keys : List Edit
some_keys = insert b'h' ∷ insert b'o' ∷ insert b'x' ∷ delete_back ∷ move_left ∷ insert b'i' ∷ []

typed_line_example :
    (s : Screen) × (run_bytes 7 80 true alice (first_screen 7) (all_bytes some_keys ++ (10 ∷ []))
      ≡ ok (s, entered (codes "hio") ∷ []))
    × Holds empty_line s.line
typed_line_example =
    typed_line 7 80 true alice some_keys (omega arith)
      (refl, (refl, (refl, (tt, (tt, (refl, tt)))))) (omega arith)

high_bytes_vanish_example :
    run_bytes 7 80 true alice (first_screen 7) (0xc3 ∷ 0xa9 ∷ b'!' ∷ [])
    ≡ run_bytes 7 80 true alice (first_screen 7) (b'!' ∷ [])
unfolding first_screen
high_bytes_vanish_example =
    high_bytes_vanish 7 80 alice (0xc3 ∷ 0xa9 ∷ []) (b'!' ∷ []) (first_screen 7) (omega arith) refl
      ((omega arith, omega arith), ((omega arith, omega arith), tt))

alice-ne-bob : alice ≢ bob
alice-ne-bob = ne_of_str_eq alice bob (unfold str_eq in refl)

send_hides_unseen_example :
    (poll_and_display bob 0 (some (render one_message))
      ≡ ok (record { msg_count = 1; shown = hello ∷ others bob [] }))
    × ((file : Option Bytes) × (send_and_display bob 0
            (some (render one_message))
            (codes "yes")
            (pos 180)
            stamp
          ≡ ok (1, file))
        × (poll_and_display bob 1 file ≡ ok (record { msg_count = 2; shown = others bob [] })))
send_hides_unseen_example =
    send_hides_unseen bob one_message [] [] hello reply stamp one_message-IsChat alice-ne-bob refl
      refl reply-IsPost reply-HasRoom
