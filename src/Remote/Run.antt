-- ===== src/Remote/Run.antt =====
-- `run_ssh` and `main`. The child process and `waitpid` are a list of what the calls of `waitpid`
-- return; an empty list is a call that does not return.
use epistemic_framework.Common.{
  ℕ, ◌<◌, Bool, true, false, ◌||◌, List, [], ◌∷◌, ◌++◌, ◌==◌, if◌then◌else◌, Bytes, codes, str_eq,
  str_eq_iff, zero, suc, replicate, All, ◌≡◌, ◌≢◌, refl, Bool-cases, inl, inr, Option, none, some,
}
use epistemic_framework.Common.Outcome.{Outcome, ok, error, abort}
use epistemic_framework.Remote.Config.{Env, RemoteConfig, load_config}
use epistemic_framework.Remote.Command.{Alloc, IsShort, words_size, size_max}
use epistemic_framework.Remote.Argv.{build_ssh_argv}
use epistemic_framework.Remote.Argv.Shape.{AllAllocated, HarmlessOpts, build_ssh_argv_cases}

pub data Wait : Type 0 where
  interrupted : Wait
  failed : Wait
  signalled : Wait
  exited : ℕ → Wait

-- `do … while (wpid < 0 && errno == EINTR)`
unfoldable pub wait_loop : List Wait → Option Wait
wait_loop [] = none
wait_loop (interrupted ∷ waits) = wait_loop waits
wait_loop (w ∷ waits) = some w

unfoldable pub ssh_exit : Wait → ℕ
ssh_exit (exited code) = if code == 255 || code == 127 then 1 else code
ssh_exit _ = 1

unfoldable pub after_wait : Option Wait → Option ℕ
after_wait none = none
after_wait (some w) = some (ssh_exit w)

-- The flag says whether `fork` succeeds.
unfoldable pub run_ssh : Bool → List Wait → Option ℕ
run_ssh false waits = some 1
run_ssh true waits = after_wait (wait_loop waits)

-- What the process returns; `some none` is a wait that does not end, `none` an abort.
unfoldable pub run_built : Outcome (List Bytes) → Bool → List Wait → Option (Option ℕ)
run_built abort forked waits = none
run_built error forked waits = some (some 1)
run_built (ok argv) forked waits = some (run_ssh forked waits)

unfoldable pub run_configured :
    Alloc → Option RemoteConfig → List Bytes → Bool → List Wait → Option (Option ℕ)
run_configured alloc none args forked waits = some (some 4)
run_configured alloc (some cfg) args forked waits =
    run_built (build_ssh_argv alloc cfg args) forked waits

-- `args` is `argv` behind the program's name.
unfoldable pub remote_main : Env → Alloc → List Bytes → Bool → List Wait → Option (Option ℕ)
unfolding run_configured run_built after_wait
remote_main env alloc [] forked waits = some (some 4)
remote_main env alloc (cmd ∷ args) forked waits =
    if str_eq cmd (codes "help")
    then some (some 0)
    else run_configured alloc (load_config env) (cmd ∷ args) forked waits

wait_loop-interrupted :
    (n : ℕ) (code : ℕ) (later : List Wait)
    → wait_loop (replicate n interrupted ++ (exited code ∷ later)) ≡ some (exited code)
unfolding wait_loop
wait_loop-interrupted zero code later = refl
wait_loop-interrupted (suc n) code later = wait_loop-interrupted n code later

-- With a configuration that loads, options that hold no dangerous byte, arguments that fit and
-- allocations that succeed: however often the wait is interrupted, the process returns the exit
-- code of the remote command, but 1 in place of the codes 255 and 127 of ssh and of a failed exec.
pub remote_main_mirrors :
    (env : Env) (cfg : RemoteConfig) (alloc : Alloc) (cmd : Bytes) (args : List Bytes) (n code : ℕ)
    (later : List Wait)
    → load_config env ≡ some cfg
    → cmd ≢ codes "help"
    → AllAllocated alloc
    → All IsShort (cfg.remote_bin ∷ cmd ∷ args)
    → words_size (cfg.remote_bin ∷ cmd ∷ args) < size_max
    → HarmlessOpts cfg.ssh_opts
    → remote_main env alloc (cmd ∷ args) true (replicate n interrupted ++ (exited code ∷ later))
      ≡ some (some (if code == 255 || code == 127 then 1 else code))
unfolding remote_main run_ssh ssh_exit
remote_main_mirrors env cfg alloc cmd args n code later loads ne a short small harmless =
    let w = wait_loop-interrupted n code later in
    let other : str_eq cmd (codes "help") ≡ false = elim (Bool-cases (str_eq cmd (codes "help"))) [
      | inl e ↦ absurd (ne ((str_eq_iff cmd (codes "help")).0 e))
      | inr e ↦ e
    ] in
    elim (build_ssh_argv_cases alloc cfg (cmd ∷ args) a short small) [
      | inl (_, (remote_cmd, built, _, _)) ↦ rw (other, loads, built, w)
      | inr (harmful, _) ↦ absurd (harmful harmless)
    ]
