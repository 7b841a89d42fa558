-- ===== src/Remote/Tests.antt =====
-- The theorems on the SSH proxy at concrete inputs.
use epistemic_framework.Common.{
  ◌≤◌, true, ◌||◌, List, [], ◌∷◌, ◌++◌, ◌==◌, if◌then◌else◌, length, replicate, Bytes, codes,
  str_eq, ne_of_str_eq, span_until, ◌≡◌, ◌≢◌, refl, arith, ◌⊎◌, none, some, ℕ,
}
use epistemic_framework.Common.Outcome.{ok, error}
use epistemic_framework.Common.Decimal.{strtoll}
use epistemic_framework.Remote.Config.{
  Env, RemoteConfig, load_config, load_port, port_refused, or_default, Holds, Absent, NamesPort,
  load_config_cases, non_empty,
}
use epistemic_framework.Remote.Escape.{contains_shell_metachar}
use epistemic_framework.Remote.Shell.{shell_words}
use epistemic_framework.Remote.Command.{Alloc}
use epistemic_framework.Remote.Argv.{build_ssh_argv}
use epistemic_framework.Remote.Argv.Shape.{HarmlessOpts, ssh_argv, build_ssh_argv_cases}
use epistemic_framework.Remote.Argv.Words.{metachar-IsHarmless}
use epistemic_framework.Remote.Run.{exited, interrupted, remote_main, remote_main_mirrors}

abbrev env : Env
env = record {
  host = some (codes "me@box");
  port = some (codes "2222");
  key = none;
  bin = some [];
  opts = some (codes "BatchMode=yes, ,Compression=no");
}

abbrev config : RemoteConfig
config = record {
  host = codes "me@box";
  port = 2222;
  key_path = none;
  remote_bin = codes "nbs-chat";
  ssh_opts = some (codes "BatchMode=yes, ,Compression=no");
}

abbrev enough : Alloc
enough = record { remote_cmd = true; esc_buf = true; argv = true; port_str = true; opts_buf = true }

abbrev send : List Bytes
send = codes "/tmp/it's.chat" ∷ codes "bob" ∷ codes "$(rm -rf); hi" ∷ []

load_env : load_config env ≡ some config
unfolding load_config load_port port_refused strtoll span_until non_empty or_default
load_env = refl

load_config_cases_example :
    ((cfg : RemoteConfig) × (load_config env ≡ some cfg)
      × Holds env.host cfg.host
      × NamesPort env.port cfg.port
      × (cfg.remote_bin ≢ []))
    ⊎ ((load_config env ≡ none) × (Absent env.host ⊎ ((n : ℕ) → NamesPort env.port n → ⊥)))
load_config_cases_example = load_config_cases env

build_ssh_argv_cases_example :
    (HarmlessOpts config.ssh_opts
      × ((remote_cmd : Bytes) × (build_ssh_argv enough config (codes "send" ∷ send)
            ≡ ok (ssh_argv config remote_cmd))
          × (shell_words remote_cmd ≡ some (config.remote_bin ∷ codes "send" ∷ send))
          × (length (ssh_argv config remote_cmd) ≤ 15)))
    ⊎ ((HarmlessOpts config.ssh_opts → ⊥)
        × (build_ssh_argv enough config (codes "send" ∷ send) ≡ error))
build_ssh_argv_cases_example =
    build_ssh_argv_cases enough config (codes "send" ∷ send) (refl, refl, refl, refl, refl)
      (omega arith) (omega arith)

send_not_help : codes "send" ≢ codes "help"
unfolding str_eq
send_not_help = ne_of_str_eq (codes "send") (codes "help") refl

harmless : HarmlessOpts config.ssh_opts
unfolding contains_shell_metachar
harmless = metachar-IsHarmless (codes "BatchMode=yes, ,Compression=no") refl

remote_main_mirrors_example :
    remote_main env enough (codes "send" ∷ send) true (replicate 2 interrupted ++ (exited 3 ∷ []))
    ≡ some (some (if 3 == 255 || 3 == 127 then 1 else 3))
remote_main_mirrors_example =
    remote_main_mirrors env config enough (codes "send") send 2 3 [] load_env send_not_help
      (refl, refl, refl, refl, refl) (omega arith) (omega arith) harmless
