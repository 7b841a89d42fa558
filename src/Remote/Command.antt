-- ===== src/Remote/Command.antt =====
-- The remote command of `build_ssh_argv`: the sizes of its buffers, and the quoted words.
use epistemic_framework.Common.{
  ℕ, ◌+◌, ◌-◌, ◌*◌, ◌/◌, ◌^◌, ◌≤◌, ◌<◌, Bool, true, List, [], ◌∷◌, ◌++◌, ltb, leb, if◌then◌else◌,
  length, length-append, append-nil, All, Bytes, ◌≡◌, refl, arith,
}
use epistemic_framework.Common.Outcome.{Outcome, ok, ◌>>=◌, ◌>>◌, require}
use epistemic_framework.Remote.Escape.{
  int_max, shell_escape, escaped, escaped_body, shell_escape_fits, length-escaped_body,
}
use epistemic_framework.Remote.Shell.{quoted_command}

abbrev pub size_max : ℕ
size_max = 2 ^ 64 - 1

-- Which of the allocations succeed.
pub record Alloc : Type 0 where
  pub remote_cmd : Bool
  pub esc_buf : Bool
  pub argv : Bool
  pub port_str : Bool
  pub opts_buf : Bool

-- The worst case of one word: every byte is a quote.
unfoldable pub word_size : Bytes → Outcome ℕ
word_size word = do require (leb (length word) (size_max / 4 - 3)); ok (length word * 4 + 3)

-- The loop over the arguments, and the byte for the NUL.
unfoldable pub add_sizes : ℕ → List Bytes → Outcome ℕ
unfolding word_size
add_sizes total [] = do require (leb total (size_max - 1)); ok (total + 1)
add_sizes total (arg ∷ args) = do
  arg_size ← word_size arg
  require (leb total (size_max - arg_size))
  add_sizes (total + arg_size) args

unfoldable pub remote_cmd_size : Bytes → List Bytes → Outcome ℕ
unfolding add_sizes word_size
remote_cmd_size remote_bin args = do total ← word_size remote_bin; add_sizes total args

-- The size of the escape buffer.
unfoldable pub max_esc_needed : ℕ → List Bytes → ℕ
max_esc_needed most [] = most
max_esc_needed most (arg ∷ args) =
    max_esc_needed (if ltb most (length arg * 4 + 3) then length arg * 4 + 3 else most) args

unfoldable pub append_args : ℕ → List Bytes → Outcome Bytes
append_args esc_size [] = ok []
append_args esc_size (arg ∷ args) = do
  word ← shell_escape arg esc_size
  rest ← append_args esc_size args
  ok (b' ' ∷ (word ++ rest))

unfoldable pub build_remote_cmd : Alloc → Bytes → List Bytes → Outcome Bytes
build_remote_cmd alloc remote_bin args = do
  size ← remote_cmd_size remote_bin args
  require alloc.remote_cmd
  let esc_size = max_esc_needed (length remote_bin * 4 + 3) args
  require alloc.esc_buf
  word ← shell_escape remote_bin esc_size
  rest ← append_args esc_size args
  ok (word ++ rest)

-- The sizes that the theorems speak of.
abbrev pub words_size : List Bytes → ℕ
words_size [] = 0
words_size (w ∷ ws) = length w * 4 + 3 + words_size ws

abbrev pub IsShort : Bytes → Type 0
IsShort w = length w * 4 + 2 ≤ int_max

add_sizes_fits :
    (total : ℕ) (args : List Bytes)
    → All IsShort args
    → total + words_size args < size_max
    → add_sizes total args ≡ ok (total + words_size args + 1)
unfolding add_sizes word_size
add_sizes_fits total [] h small = ground arith
add_sizes_fits total (arg ∷ args) (short, h) small =
    let a : leb (length arg) (size_max / 4 - 3) ≡ true = ground arith in
    let b : leb total (size_max - (length arg * 4 + 3)) ≡ true = ground arith in
    rw (a, b) (ground (arith, add_sizes_fits (total + (length arg * 4 + 3)) args h (omega arith)))

le-max_esc_needed : (most : ℕ) (args : List Bytes) → most ≤ max_esc_needed most args
unfolding max_esc_needed
le-max_esc_needed most [] = omega arith
le-max_esc_needed most (arg ∷ args) =
    ground (arith, le-max_esc_needed (length arg * 4 + 3) args, le-max_esc_needed most args)

-- Every argument's worst case fits the escape buffer.
max_esc_needed-All :
    (most : ℕ) (args : List Bytes) → All (λ arg. length arg * 4 + 3 ≤ max_esc_needed most args) args
unfolding max_esc_needed
max_esc_needed-All most [] = tt
max_esc_needed-All most (arg ∷ args) =
    let next = if ltb most (length arg * 4 + 3) then length arg * 4 + 3 else most in
    (ground (arith, le-max_esc_needed next args), max_esc_needed-All next args)

-- What stands behind the first word.
abbrev spaced : List Bytes → Bytes
spaced [] = []
spaced (v ∷ vs) = b' ' ∷ (escaped v ++ spaced vs)

quoted_command-spaced : (w : Bytes) (ws : List Bytes) → quoted_command w ws ≡ escaped w ++ spaced ws
unfolding quoted_command
quoted_command-spaced w [] = rw append-nil
quoted_command-spaced w (v ∷ vs) = rw (quoted_command-spaced v vs)

append_args_fits :
    (esc_size : ℕ) (args : List Bytes)
    → All IsShort args
    → All (λ arg. length arg * 4 + 3 ≤ esc_size) args
    → append_args esc_size args ≡ ok (spaced args)
unfolding append_args
append_args_fits esc_size [] h fit = refl
append_args_fits esc_size (arg ∷ args) (short, h) (f, fit) =
    rw (shell_escape_fits arg esc_size f short, append_args_fits esc_size args h fit)

length-spaced : (ws : List Bytes) → length (spaced ws) ≤ words_size ws
length-spaced [] = omega arith
length-spaced (w ∷ ws) =
    omega
      (arith, length-append (escaped_body w) (spaced ws), length-escaped_body w, length-spaced ws)

-- Where the allocations succeed, the command is written, and it fits the buffer with its NUL.
pub build_remote_cmd_fits :
    (alloc : Alloc) (remote_bin : Bytes) (args : List Bytes)
    → alloc.remote_cmd ≡ true
    → alloc.esc_buf ≡ true
    → All IsShort (remote_bin ∷ args)
    → words_size (remote_bin ∷ args) < size_max
    → (build_remote_cmd alloc remote_bin args ≡ ok (quoted_command remote_bin args))
      × (remote_cmd_size remote_bin args ≡ ok (words_size (remote_bin ∷ args) + 1))
      × (length (quoted_command remote_bin args) < words_size (remote_bin ∷ args) + 1)
build_remote_cmd_fits alloc remote_bin args a1 a2 (short, h) small =
    let b : leb (length remote_bin) (size_max / 4 - 3) ≡ true = ground arith in
    let size : remote_cmd_size remote_bin args ≡ ok (words_size (remote_bin ∷ args) + 1) =
      unfold remote_cmd_size word_size in
      rw b (add_sizes_fits (length remote_bin * 4 + 3) args h (omega arith)) in
    let most = length remote_bin * 4 + 3 in
    let word =
      shell_escape_fits remote_bin (max_esc_needed most args) (le-max_esc_needed most args) short in
    let rest = append_args_fits (max_esc_needed most args) args h (max_esc_needed-All most args) in
    (
      (unfold build_remote_cmd in rw (size, a1, a2, word, rest, quoted_command-spaced)),
      size,
      rw quoted_command-spaced (
          omega (
            arith,
            length-append (escaped_body remote_bin) (spaced args),
            length-escaped_body remote_bin,
            length-spaced args,
          )),
    )
