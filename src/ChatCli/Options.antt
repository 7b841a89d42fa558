-- ===== src/ChatCli/Options.antt =====
-- The path and the options of a command.
use epistemic_framework.Common.{
  ℕ, Bool, true, false, not, ◌||◌, List, [], ◌∷◌, ◌++◌, ltb, if◌then◌else◌, length, drop, Bytes,
  codes, has_prefix, span_until, Option, none, some, ◌≡◌, refl,
}
use epistemic_framework.Common.Int.{ℤ, pos, negsuc, within, int_max_ℤ}
use epistemic_framework.Common.Decimal.{strtoll}

abbrev pub max_path_len : ℕ
max_path_len = 4096

-- The length of the path in front of a relative one, and the whole.
abbrev in_directory : Option Bytes → Bytes → Option Bytes
in_directory none path = none
in_directory (some cwd) path =
    let joined = cwd ++ (b'/' ∷ path) in
    if ltb (length joined) max_path_len then some joined else none

-- `cwd` is what `getcwd` gives.
unfoldable pub resolve_path : Option Bytes → Bytes → Option Bytes
resolve_path cwd path =
    if has_prefix (codes "/") path
    then (if ltb (length path) max_path_len then some path else none)
    else in_directory cwd path

abbrev is_nil : Bytes → Bool
is_nil [] = true
is_nil (c ∷ s) = false

abbrev natural : ℤ → Option ℕ
natural (pos n) = some n
natural (negsuc n) = none

-- The value of `--last=` and `--timeout=`: 0 to INT_MAX.
unfoldable pub int_option : Bytes → Option ℕ
int_option s =
    let read = strtoll s in
    if read.out_of_range || not (is_nil read.rest) || not (within (pos 0) int_max_ℤ read.value)
    then none
    else natural read.value

-- An empty handle is ignored.
abbrev pub non_empty_handle : Bytes → Option Bytes
non_empty_handle [] = none
non_empty_handle (c ∷ s) = some (c ∷ s)

pub record ReadOptions : Type 0 where
  pub last_n : Option ℕ
  pub since_handle : Option Bytes
  pub unread_handle : Option Bytes

abbrev set_last : ReadOptions → Option ℕ → Option ReadOptions
set_last o none = none
set_last o (some n) = some (record o { last_n = some n })

unfoldable pub read_option : ReadOptions → Bytes → Option ReadOptions
read_option o arg =
    if has_prefix (codes "--last=") arg
    then set_last o (int_option (drop 7 arg))
    else if has_prefix (codes "--since=") arg
    then some (record o { since_handle = non_empty_handle (drop 8 arg) })
    else if has_prefix (codes "--unread=") arg
    then some (record o { unread_handle = non_empty_handle (drop 9 arg) })
    else some o

abbrev read_rest : (ReadOptions → Option ReadOptions) → Option ReadOptions → Option ReadOptions
read_rest later none = none
read_rest later (some o) = later o

unfoldable pub read_options : List Bytes → ReadOptions → Option ReadOptions
read_options [] o = some o
read_options (arg ∷ args) o = read_rest (read_options args) (read_option o arg)

abbrev pub no_options : ReadOptions
no_options = record { last_n = none; since_handle = none; unread_handle = none }

abbrev timeout_rest : (ℕ → Option ℕ) → Option ℕ → Option ℕ
timeout_rest later none = none
timeout_rest later (some n) = later n

unfoldable pub timeout_option : List Bytes → ℕ → Option ℕ
timeout_option [] timeout = some timeout
timeout_option (arg ∷ args) timeout =
    if has_prefix (codes "--timeout=") arg
    then timeout_rest (timeout_option args) (int_option (drop 10 arg))
    else timeout_option args timeout

unfoldable pub handle_option : List Bytes → Option Bytes → Option Bytes
handle_option [] filter = filter
handle_option (arg ∷ args) filter =
    handle_option args
      (if has_prefix (codes "--handle=") arg then non_empty_handle (drop 9 arg) else filter)

some_options :
    read_options (codes "--last=5" ∷ codes "--unread=bob" ∷ codes "--since=" ∷ []) no_options
    ≡ some (record { last_n = some 5; since_handle = none; unread_handle = some (codes "bob") })
unfolding read_options read_option int_option strtoll has_prefix span_until
some_options = refl
