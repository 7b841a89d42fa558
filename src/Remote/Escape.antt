-- ===== src/Remote/Escape.antt =====
-- `shell_escape` and `contains_shell_metachar`.
use epistemic_framework.Common.{
  ℕ, ◌+◌, ◌-◌, ◌*◌, ◌^◌, ◌≤◌, ◌<◌, Bool, false, ◌||◌, [], ◌∷◌, ◌++◌, ltb, leb, ◌==◌, if◌then◌else◌,
  length, Bytes, codes, ◌≡◌, refl, arith,
}
use epistemic_framework.Common.Outcome.{Outcome, ok, ◌>>=◌, ◌>>◌, assert, require}

abbrev pub quote : ℕ
quote = 39

abbrev pub backslash : ℕ
backslash = 92

-- `'\''`
abbrev pub quoted_quote : Bytes
quoted_quote = quote ∷ backslash ∷ quote ∷ quote ∷ []

abbrev pub int_max : ℕ
int_max = 2 ^ 31 - 1

-- From position `pos` of the buffer on: the bytes of the loop and the closing quote.
unfoldable pub escape_from : ℕ → ℕ → Bytes → Outcome Bytes
escape_from buf_size pos [] = do
  require (ltb pos (buf_size - 1))
  require (leb (pos + 1) int_max)
  ok (quote ∷ [])
escape_from buf_size pos (c ∷ s) =
    let quoted = do
      require (ltb (pos + 4) (buf_size - 1))
      rest ← escape_from buf_size (pos + 4) s
      ok (quoted_quote ++ rest)
    in let plain = do
      require (ltb pos (buf_size - 1))
      rest ← escape_from buf_size (pos + 1) s
      ok (c ∷ rest)
      in if c == quote then quoted else plain

unfoldable pub shell_escape : Bytes → ℕ → Outcome Bytes
unfolding escape_from
shell_escape arg buf_size = do
  assert (ltb 0 buf_size)
  require (ltb 0 (buf_size - 1))
  rest ← escape_from buf_size 1 arg
  ok (quote ∷ rest)

unfoldable pub is_metachar : ℕ → Bool
is_metachar c =
    (c == b';' || c == b'`' || c == b'$' || c == b'(' || c == b')')
    || (c == b'|' || c == b'&' || c == b'<' || c == b'>' || c == b'{')
    || (c == b'}' || c == b'!' || c == backslash || c == 10 || c == 13)

unfoldable pub contains_shell_metachar : Bytes → Bool
unfolding is_metachar
contains_shell_metachar [] = false
contains_shell_metachar (c ∷ s) = is_metachar c || contains_shell_metachar s

its : shell_escape (codes "it's") 20 ≡ ok (codes "'it'\\''s'")
unfolding shell_escape
its = refl

-- The quoted form, with no regard to buffers.
unfoldable pub escaped_body : Bytes → Bytes
escaped_body [] = quote ∷ []
escaped_body (c ∷ s) = if c == quote then quoted_quote ++ escaped_body s else c ∷ escaped_body s

abbrev pub escaped : Bytes → Bytes
escaped s = quote ∷ escaped_body s

pub length-escaped_body : (s : Bytes) → length (escaped_body s) ≤ length s * 4 + 1
unfolding escaped_body
length-escaped_body [] = omega arith
length-escaped_body (c ∷ s) = ground (arith, length-escaped_body s)

-- The loop succeeds exactly when the text, and the NUL behind it, fit the buffer.
escape_from_fits :
    (buf_size pos : ℕ) (s : Bytes)
    → pos + length s * 4 + 1 < buf_size
    → pos + length s * 4 + 1 ≤ int_max
    → escape_from buf_size pos s ≡ ok (escaped_body s)
unfolding escape_from escaped_body
escape_from_fits buf_size pos [] h m = ground arith
escape_from_fits buf_size pos (c ∷ s) h m = ground (
  arith,
  escape_from_fits buf_size (pos + 4) s (omega arith) (omega arith),
  escape_from_fits buf_size (pos + 1) s (omega arith) (omega arith),
)

-- A buffer of four bytes for each byte of the argument, and three more, is always enough.
pub shell_escape_fits :
    (s : Bytes) (buf_size : ℕ)
    → length s * 4 + 3 ≤ buf_size
    → length s * 4 + 2 ≤ int_max
    → shell_escape s buf_size ≡ ok (escaped s)
unfolding shell_escape
shell_escape_fits s buf_size h m =
    ground (arith, escape_from_fits buf_size 1 s (omega arith) (omega arith))
