-- ===== src/Remote/Argv/Shape.antt =====
-- What the argument vector holds.
use epistemic_framework.Common.{
  ◌+◌, ◌≤◌, ◌<◌, true, false, List, [], ◌∷◌, ◌++◌, append_assoc, ltb, length, length-append, All,
  Bytes, codes, ◌≡◌, refl, arith, Bool-cases, ◌⊎◌, inl, inr, Option, none, some,
}
use epistemic_framework.Common.Outcome.{ok, error}
use epistemic_framework.Remote.Config.{RemoteConfig}
use epistemic_framework.Remote.Escape.{contains_shell_metachar}
use epistemic_framework.Remote.Shell.{shell_words, quoted_command, shell_words-quoted_command}
use epistemic_framework.Remote.Command.{
  Alloc, build_remote_cmd, build_remote_cmd_fits, IsShort, words_size, size_max,
}
use epistemic_framework.Remote.Argv.{max_args, add_ssh_opts, build_ssh_argv}
use epistemic_framework.Remote.Argv.Words.{
  port_words, key_words, opts_words, length-port_words, length-key_words, length-opts_words,
  push_fits, add_port_lem, add_ssh_opts_lem, add_key_lem, IsHarmless, harmless-metachar,
  metachar-IsHarmless,
}

abbrev pub ssh_argv : RemoteConfig → Bytes → List Bytes
ssh_argv cfg remote_cmd =
    codes "ssh"
    ∷ (port_words cfg.port
        ++ (key_words cfg.key_path ++ (opts_words cfg.ssh_opts ++ (cfg.host ∷ remote_cmd ∷ []))))

abbrev pub HarmlessOpts : Option Bytes → Type 0
HarmlessOpts none = Unit {0}
HarmlessOpts (some o) = IsHarmless o

opts_cases :
    (opts : Option Bytes)
    → (HarmlessOpts opts × ((o : Bytes) → opts ≡ some o → contains_shell_metachar o ≡ false))
      ⊎ ((HarmlessOpts opts → ⊥)
          × ((o : Bytes) × (opts ≡ some o) × (contains_shell_metachar o ≡ true)))
opts_cases none = inl (tt, λ o e. cc)
opts_cases (some x) = elim (Bool-cases (contains_shell_metachar x)) [
  | inl bad ↦ inr ((λ h. let e = harmless-metachar x h in cc), (x, refl, bad))
  | inr good ↦ inl (metachar-IsHarmless x good, λ o e. let same : x ≡ o = cc in rw (← same) good)
]

-- Every allocation of the function succeeds.
abbrev pub AllAllocated : Alloc → Type 0
AllAllocated a =
    (a.remote_cmd ≡ true)
    × (a.esc_buf ≡ true)
    × (a.argv ≡ true)
    × (a.port_str ≡ true)
    × (a.opts_buf ≡ true)

regroup :
    (first p k o : List Bytes) (host cmd : Bytes)
    → ((((first ++ p) ++ k) ++ o) ++ (host ∷ [])) ++ (cmd ∷ [])
      ≡ first ++ (p ++ (k ++ (o ++ (host ∷ cmd ∷ []))))
regroup first p k o host cmd = simp append_assoc

length_parts :
    (first p k o : List Bytes)
    → length (((first ++ p) ++ k) ++ o) ≡ length first + length p + length k + length o
length_parts first p k o = omega (
  arith,
  length-append first p,
  length-append (first ++ p) k,
  length-append ((first ++ p) ++ k) o,
)

length-ssh_argv : (cfg : RemoteConfig) (cmd : Bytes) → length (ssh_argv cfg cmd) ≤ 15
length-ssh_argv cfg cmd =
    let p = port_words cfg.port in
    let k = key_words cfg.key_path in
    let o = opts_words cfg.ssh_opts in
    omega (
      arith,
      length-port_words cfg.port,
      length-key_words cfg.key_path,
      length-opts_words cfg.ssh_opts,
      length-append p (k ++ (o ++ (cfg.host ∷ cmd ∷ []))),
      length-append k (o ++ (cfg.host ∷ cmd ∷ [])),
      length-append o (cfg.host ∷ cmd ∷ []),
    )

argv_of_parts :
    (alloc : Alloc) (cfg : RemoteConfig) (remote_cmd : Bytes) (args : List Bytes)
    → AllAllocated alloc
    → build_remote_cmd alloc cfg.remote_bin args ≡ ok remote_cmd
    → ((o : Bytes) → cfg.ssh_opts ≡ some o → contains_shell_metachar o ≡ false)
    → build_ssh_argv alloc cfg args ≡ ok (ssh_argv cfg remote_cmd)
unfolding build_ssh_argv
argv_of_parts alloc cfg remote_cmd args a command clean =
    let p = port_words cfg.port in
    let k = key_words cfg.key_path in
    let o = opts_words cfg.ssh_opts in
    let first = codes "ssh" ∷ [] in
    let lp = length-port_words cfg.port in
    let lk = length-key_words cfg.key_path in
    let lo = length-opts_words cfg.ssh_opts in
    let full = ((first ++ p) ++ k) ++ o in
    let lf = length_parts first p k o in
    let l1 = length-append first p in
    let l2 = length-append (first ++ p) k in
    let last = regroup first p k o cfg.host remote_cmd in
    let end : ltb (length ((full ++ (cfg.host ∷ [])) ++ (remote_cmd ∷ []))) max_args ≡ true =
      ground (
        arith,
        length-append full (cfg.host ∷ []),
        length-append (full ++ (cfg.host ∷ [])) (remote_cmd ∷ []),
      ) in
    rw (
      command,
      a.2,
      push_fits [] (codes "ssh") (omega arith),
      a.3,
      add_port_lem cfg.port first (omega arith),
      add_key_lem cfg.key_path (first ++ p) (omega arith),
      a.4,
      add_ssh_opts_lem cfg.ssh_opts ((first ++ p) ++ k) (omega arith) clean,
      push_fits full cfg.host (omega arith),
      push_fits (full ++ (cfg.host ∷ [])) remote_cmd
          (omega (arith, length-append full (cfg.host ∷ []))),
      end,
      last,
    )

argv_refused :
    (alloc : Alloc) (cfg : RemoteConfig) (args : List Bytes) (remote_cmd o : Bytes)
    → AllAllocated alloc
    → build_remote_cmd alloc cfg.remote_bin args ≡ ok remote_cmd
    → cfg.ssh_opts ≡ some o
    → contains_shell_metachar o ≡ true
    → build_ssh_argv alloc cfg args ≡ error
unfolding build_ssh_argv
argv_refused alloc cfg args remote_cmd o a command e bad =
    let first = codes "ssh" ∷ [] in
    let l1 = length-append first (port_words cfg.port) in
    rw
      (
        command,
        a.2,
        push_fits [] (codes "ssh") (omega arith),
        a.3,
        add_port_lem cfg.port first (omega arith),
        add_key_lem cfg.key_path (first ++ port_words cfg.port)
            (omega (arith, length-port_words cfg.port)),
        a.4,
        e,
      )
      (unfold add_ssh_opts in rw bad)

-- Where the allocations succeed and the command fits a size_t and an int: with options that hold
-- no dangerous byte, or none, the vector is `ssh`, the port if it is not 22, the key if there is
-- one, at most four options, the host and one remote command, at most 15 words in all, and a POSIX
-- shell splits that command into exactly the remote program's name and the arguments; options that
-- hold a dangerous byte are refused.
pub build_ssh_argv_cases :
    (alloc : Alloc) (cfg : RemoteConfig) (args : List Bytes)
    → AllAllocated alloc
    → All IsShort (cfg.remote_bin ∷ args)
    → words_size (cfg.remote_bin ∷ args) < size_max
    → (HarmlessOpts cfg.ssh_opts
        × ((remote_cmd : Bytes) × (build_ssh_argv alloc cfg args ≡ ok (ssh_argv cfg remote_cmd))
            × (shell_words remote_cmd ≡ some (cfg.remote_bin ∷ args))
            × (length (ssh_argv cfg remote_cmd) ≤ 15)))
      ⊎ ((HarmlessOpts cfg.ssh_opts → ⊥) × (build_ssh_argv alloc cfg args ≡ error))
build_ssh_argv_cases alloc cfg args a short small =
    let command = (build_remote_cmd_fits alloc cfg.remote_bin args a.0 a.1 short small).0 in
    let remote_cmd = quoted_command cfg.remote_bin args in
    elim (opts_cases cfg.ssh_opts) [
      | inl (harmless, clean) ↦ inl (
        harmless,
        (
          remote_cmd,
          argv_of_parts alloc cfg remote_cmd args a command clean,
          shell_words-quoted_command cfg.remote_bin args,
          length-ssh_argv cfg remote_cmd,
        ),
      )
      | inr (harmful, (o, e, bad)) ↦
          inr (harmful, argv_refused alloc cfg args remote_cmd o a command e bad)
    ]
