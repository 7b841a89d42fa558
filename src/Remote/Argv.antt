-- ===== src/Remote/Argv.antt =====
-- `build_ssh_argv`: the argument vector of the ssh command.
pub mod Words
pub mod Shape
use epistemic_framework.Common.{
  ℕ, zero, suc, ◌+◌, ◌≤◌, ◌<◌, Bool, true, false, not, ◌&&◌, List, [], ◌∷◌, ◌++◌, ltb, ◌==◌,
  if◌then◌else◌, length, length-append, All, Bytes, codes, ◌≡◌, refl, arith, Bool-cases, ◌⊎◌, inl,
  inr, Option, none, some,
}
use epistemic_framework.Common.Decimal.{print_ℕ}
use epistemic_framework.Common.Outcome.{Outcome, ok, error, abort, ◌>>=◌, ◌>>◌, assert, require}
use epistemic_framework.Remote.Config.{RemoteConfig, is_nil}
use epistemic_framework.Remote.Escape.{contains_shell_metachar}
use epistemic_framework.Remote.Command.{Alloc, build_remote_cmd}

abbrev pub max_args : ℕ
max_args = 16

-- `argv[ai++] = word`, with the assertion in front of it.
unfoldable pub push : List Bytes → Bytes → Outcome (List Bytes)
push argv word = do assert (ltb (length argv) max_args); ok (argv ++ (word ∷ []))

unfoldable pub push_pair : List Bytes → Bytes → Bytes → Outcome (List Bytes)
push_pair argv flag value = do
  assert (ltb (length argv + 1) max_args)
  ok (argv ++ (flag ∷ value ∷ []))

-- `strtok_r` with the delimiter `,`: the fields that are not empty; `field` is the one being read.
unfoldable pub fields_from : Bytes → Bytes → List Bytes
fields_from field [] = if is_nil field then [] else field ∷ []
fields_from field (c ∷ s) = elim (c == b',') [
  | true ↦ let rest = fields_from [] s in if is_nil field then rest else field ∷ rest
  | false ↦ fields_from (field ++ (c ∷ [])) s
]

unfoldable pub skip_blanks : Bytes → Bytes
skip_blanks [] = []
skip_blanks (c ∷ s) = if c == b' ' then skip_blanks s else c ∷ s

-- The loop over the options, `count` of which are in the vector.
unfoldable pub add_opts : ℕ → List Bytes → List Bytes → Outcome (List Bytes)
add_opts count argv [] = ok argv
add_opts count argv (field ∷ fields) =
    let opt = skip_blanks field in
    let skipped = add_opts count argv fields in
    let added = do argv' ← push_pair argv (codes "-o") opt; add_opts (count + 1) argv' fields
    in if not (ltb count 4) then ok argv else if is_nil opt then skipped else added

unfoldable pub add_port : Bool → ℕ → List Bytes → Outcome (List Bytes)
add_port allocated port argv =
    if port == 22 then ok argv else do require allocated; push_pair argv (codes "-p") (print_ℕ port)

unfoldable pub add_key : Option Bytes → List Bytes → Outcome (List Bytes)
add_key none argv = ok argv
add_key (some key_path) argv = push_pair argv (codes "-i") key_path

-- When the copy of the options (the flag) cannot be allocated, they are left out.
unfoldable pub add_ssh_opts : Bool → Option Bytes → List Bytes → Outcome (List Bytes)
add_ssh_opts allocated none argv = ok argv
add_ssh_opts allocated (some opts) argv = do
  require (not (contains_shell_metachar opts))
  if allocated then add_opts 0 argv (fields_from [] opts) else ok argv

-- `main` sees to it that there is a command in `args`, so the assertion of that is left out.
unfoldable pub build_ssh_argv : Alloc → RemoteConfig → List Bytes → Outcome (List Bytes)
build_ssh_argv alloc cfg args = do
  remote_cmd ← build_remote_cmd alloc cfg.remote_bin args
  require alloc.argv
  with_ssh ← push [] (codes "ssh")
  with_port ← add_port alloc.port_str cfg.port with_ssh
  with_key ← add_key cfg.key_path with_port
  with_opts ← add_ssh_opts alloc.opts_buf cfg.ssh_opts with_key
  with_host ← push with_opts cfg.host
  with_cmd ← push with_host remote_cmd
  assert (ltb (length with_cmd) max_args)
  ok with_cmd
