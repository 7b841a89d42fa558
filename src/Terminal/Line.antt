-- ===== src/Terminal/Line.antt =====
-- The line buffer of the terminal client and its editing operations. The buffer is the memory
-- behind `buf`, `cap` bytes of it; what `malloc` and `realloc` leave in new bytes is the parameter `junk`. Memory is always
-- enough.
pub mod Grow
pub mod Memory
pub mod Shows
pub mod Delete
pub mod Cursor
use epistemic_framework.Common.{
  ℕ, zero, suc, ◌+◌, ◌-◌, ◌*◌, ◌/◌, ◌^◌, Bool, true, false, List, [], ◌∷◌, ◌++◌, ltb, leb, ◌==◌,
  if◌then◌else◌, length, take, drop, get_or, replicate, Bytes, codes, ◌≡◌, refl,
}
use epistemic_framework.Common.Outcome.{Outcome, ok, error, abort, ◌>>=◌, ◌>>◌, assert}

abbrev pub line_init_cap : ℕ
line_init_cap = 256

-- SIZE_MAX of a 64-bit size_t.
abbrev pub size_max : ℕ
size_max = 2 ^ 64 - 1

pub record LineState : Type 0 where
  pub buf : Bytes
  pub len : ℕ
  pub cap : ℕ
  pub cursor : ℕ

-- `buf[i] = c`
abbrev pub store : ℕ → ℕ → Bytes → Bytes
store i c [] = []
store zero c (x ∷ xs) = c ∷ xs
store (suc i) c (x ∷ xs) = x ∷ store i c xs

-- `memmove(buf + to, buf + from, n)`
abbrev pub memmove : ℕ → ℕ → ℕ → Bytes → Bytes
memmove to from n buf = take to buf ++ (take n (drop from buf) ++ drop (to + n) buf)

-- The loop that doubles the capacity, with fuel; without fuel it would not have ended.
unfoldable pub double_cap : ℕ → ℕ → ℕ → Outcome ℕ
double_cap zero new_cap needed = error
double_cap (suc fuel) new_cap needed =
    let more = assert (leb new_cap (size_max / 2)) >> double_cap fuel (new_cap * 2) needed in
    if leb new_cap needed then more else ok new_cap

module _ (junk : ℕ) where
  unfoldable pub line_state_init : LineState
  line_state_init = record {
    buf = 0 ∷ replicate (line_init_cap - 1) junk;
    len = 0;
    cap = line_init_cap;
    cursor = 0;
  }

  -- `realloc` keeps the old bytes.
  unfoldable pub line_ensure_cap : LineState → ℕ → Outcome LineState
  line_ensure_cap ls needed =
      if leb ls.cap needed
      then (do
        assert (ltb needed (size_max / 2))
        new_cap ← double_cap (needed + 2) (if ls.cap == 0 then line_init_cap else ls.cap) needed
        ok (record ls { buf = ls.buf ++ replicate (new_cap - ls.cap) junk; cap = new_cap }))
      else ok ls

  unfoldable pub line_insert_char : LineState → ℕ → Outcome LineState
  line_insert_char ls c = do
    assert (leb ls.cursor ls.len)
    grown ← line_ensure_cap ls (ls.len + 1)
    let room =
        if ltb ls.cursor ls.len
        then memmove (ls.cursor + 1) ls.cursor (ls.len - ls.cursor) grown.buf
        else grown.buf
    let buf = store (ls.len + 1) 0 (store ls.cursor c room)
    assert (get_or buf (ls.len + 1) 1 == 0)
    assert (leb (ls.cursor + 1) (ls.len + 1))
    ok (record grown { buf = buf; len = ls.len + 1; cursor = ls.cursor + 1 })

unfoldable pub line_state_reset : LineState → LineState
line_state_reset ls = record ls { buf = store 0 0 ls.buf; len = 0; cursor = 0 }

unfoldable pub line_delete_back : LineState → Outcome LineState
line_delete_back ls =
    if ls.cursor == 0
    then ok ls
    else (let moved =
          if ltb ls.cursor ls.len
          then memmove (ls.cursor - 1) ls.cursor (ls.len - ls.cursor) ls.buf
          else ls.buf in
        assert (leb (ls.cursor - 1) (ls.len - 1))
        >> ok (record ls {
          buf = store (ls.len - 1) 0 moved;
          len = ls.len - 1;
          cursor = ls.cursor - 1;
        }))

unfoldable pub line_delete_forward : LineState → Outcome LineState
line_delete_forward ls =
    if leb ls.len ls.cursor
    then ok ls
    else (let moved = memmove ls.cursor (ls.cursor + 1) (ls.len - ls.cursor - 1) ls.buf in
        assert (leb ls.cursor (ls.len - 1))
        >> ok (record ls { buf = store (ls.len - 1) 0 moved; len = ls.len - 1 }))

unfoldable pub line_move_left : LineState → LineState
line_move_left ls = if ltb 0 ls.cursor then record ls { cursor = ls.cursor - 1 } else ls

unfoldable pub line_move_right : LineState → LineState
line_move_right ls = if ltb ls.cursor ls.len then record ls { cursor = ls.cursor + 1 } else ls

unfoldable pub line_move_home : LineState → LineState
line_move_home ls = record ls { cursor = 0 }

unfoldable pub line_move_end : LineState → LineState
line_move_end ls = record ls { cursor = ls.len }
