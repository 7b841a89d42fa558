-- ===== src/Remote/Config.antt =====
-- `load_config`: the SSH configuration from the environment.
use epistemic_framework.Common.{
  ℕ, ◌≤◌, Bool, true, false, not, ◌||◌, [], ◌∷◌, Option, none, some, if◌then◌else◌, Bytes, codes,
  ◌≡◌, ◌≢◌, refl, ◌⊎◌, inl, inr, arith, Bool-cases,
}
use epistemic_framework.Common.Int.{ℤ, pos, negsuc, within}
use epistemic_framework.Common.Decimal.{Strtoll, strtoll}

-- `getenv` for each of the five variables.
pub record Env : Type 0 where
  pub host : Option Bytes
  pub port : Option Bytes
  pub key : Option Bytes
  pub bin : Option Bytes
  pub opts : Option Bytes

pub record RemoteConfig : Type 0 where
  pub host : Bytes
  pub port : ℕ
  pub key_path : Option Bytes
  pub remote_bin : Bytes
  pub ssh_opts : Option Bytes

-- A variable that is unset or empty counts as absent.
unfoldable pub non_empty : Option Bytes → Option Bytes
non_empty none = none
non_empty (some []) = none
non_empty (some (c ∷ s)) = some (c ∷ s)

abbrev pub is_nil : Bytes → Bool
is_nil [] = true
is_nil (_ ∷ _) = false

-- `(int)val` of a value in [1, 65535].
abbrev pub to_ℕ : ℤ → ℕ
to_ℕ (pos n) = n
to_ℕ (negsuc n) = 0

-- `errno != 0 || *endptr != '\0' || val < 1 || val > 65535`
unfoldable pub port_refused : Strtoll → Bool
port_refused val =
    val.out_of_range || not (is_nil val.rest) || not (within (pos 1) (pos 65535) val.value)

-- The port: 22 when absent, `none` when it is refused.
unfoldable pub load_port : Option Bytes → Option ℕ
load_port none = some 22
load_port (some s) = if port_refused (strtoll s) then none else some (to_ℕ (strtoll s).value)

unfoldable pub or_default : Bytes → Option Bytes → Bytes
or_default d none = d
or_default d (some s) = s

-- `none` is the return value 4, with a message on stderr.
unfoldable pub load_rest : Env → Bytes → Option ℕ → Option RemoteConfig
load_rest env host none = none
load_rest env host (some port) = some (record {
  host = host;
  port = port;
  key_path = non_empty env.key;
  remote_bin = or_default (codes "nbs-chat") (non_empty env.bin);
  ssh_opts = non_empty env.opts;
})

unfoldable pub load_host : Env → Option Bytes → Option RemoteConfig
unfolding load_rest
load_host env none = none
load_host env (some host) = load_rest env host (load_port (non_empty env.port))

unfoldable pub load_config : Env → Option RemoteConfig
unfolding load_host
load_config env = load_host env (non_empty env.host)

-- A variable that counts as absent, and one that holds a text.
abbrev pub Absent : Option Bytes → Type 0
Absent o = (o ≡ none) ⊎ (o ≡ some [])

abbrev pub Holds : Option Bytes → Bytes → Type 0
Holds o s = (o ≡ some s) × (s ≢ [])

-- The port of a configuration: 22 if the variable is absent, else the number that it spells,
-- from 1 to 65535, with nothing behind it.
abbrev pub NamesPort : Option Bytes → ℕ → Type 0
NamesPort o n =
    (Absent o × (n ≡ 22))
    ⊎ ((s : Bytes) × Holds o s
        × ((strtoll s).value ≡ pos n)
        × ((strtoll s).rest ≡ [])
        × ((strtoll s).out_of_range ≡ false)
        × (1 ≤ n)
        × (n ≤ 65535))

cons-ne-nil : (c : ℕ) (s : Bytes) → c ∷ s ≢ []
cons-ne-nil c s e = cc

non_empty_cases :
    (o : Option Bytes)
    → (Absent o × (non_empty o ≡ none)) ⊎ ((s : Bytes) × Holds o s × (non_empty o ≡ some s))
unfolding non_empty
non_empty_cases none = inl (inl refl, refl)
non_empty_cases (some []) = inl (inr refl, refl)
non_empty_cases (some (c ∷ s)) = inr (c ∷ s, (refl, cons-ne-nil c s), refl)

ne-Absent : {o : Option Bytes} {s : Bytes} → Absent o → Holds o s → ⊥
ne-Absent (inl e) (e', ne) = cc
ne-Absent {o} {s} (inr e) (e', ne) = ne (ground (arith, e, e'))

value_in_range :
    (v : ℤ)
    → within (pos 1) (pos 65535) v ≡ true
    → (v ≡ pos (to_ℕ v)) × (1 ≤ to_ℕ v) × (to_ℕ v ≤ 65535)
value_in_range (pos n) h = (refl, ground arith, ground arith)
value_in_range (negsuc n) h = absurd (ground arith)

nil_of_is_nil : (s : Bytes) → is_nil s ≡ true → s ≡ []
nil_of_is_nil [] h = refl
nil_of_is_nil (c ∷ s) h = absurd (ground arith)

taken :
    (v : Strtoll)
    → port_refused v ≡ false
    → (v.value ≡ pos (to_ℕ v.value))
      × (v.rest ≡ [])
      × (v.out_of_range ≡ false)
      × (1 ≤ to_ℕ v.value)
      × (to_ℕ v.value ≤ 65535)
unfolding port_refused
taken v h =
    let w : within (pos 1) (pos 65535) v.value ≡ true = ground arith in
    let (e, low, high) = value_in_range v.value w in
    let r : is_nil v.rest ≡ true = ground arith in
    (e, nil_of_is_nil v.rest r, ground arith, low, high)

takes :
    (v : Strtoll) (n : ℕ)
    → v.value ≡ pos n
    → v.rest ≡ []
    → v.out_of_range ≡ false
    → 1 ≤ n
    → n ≤ 65535
    → port_refused v ≡ false
unfolding port_refused
takes v n e r o low high = rw (e, r, o) (ground arith)

refuses :
    (o : Option Bytes) (s : Bytes) (n : ℕ)
    → Holds o s
    → port_refused (strtoll s) ≡ true
    → NamesPort o n
    → ⊥
refuses o s n h bad (inl (absent, _)) = ne-Absent absent h
refuses o s n h bad (inr (s', h', e, r, c, low, high)) =
    let same : s' ≡ s = cc in
    let good : port_refused (strtoll s') ≡ false = takes (strtoll s') n e r c low high in cc

load_text_cases :
    (o : Option Bytes) (s : Bytes)
    → Holds o s
    → ((n : ℕ) × (load_port (some s) ≡ some n) × NamesPort o n)
      ⊎ ((load_port (some s) ≡ none) × ((n : ℕ) → NamesPort o n → ⊥))
unfolding load_port
load_text_cases o s h = elim (Bool-cases (port_refused (strtoll s))) [
  | inl bad ↦ inr ((rw bad), λ n. refuses o s n h bad)
  | inr good ↦
      let (e, r, c, low, high) = taken (strtoll s) good in
      inl (to_ℕ (strtoll s).value, (rw good), inr (s, h, e, r, c, low, high))
]

load_port_cases :
    (o : Option Bytes)
    → ((n : ℕ) × (load_port (non_empty o) ≡ some n) × NamesPort o n)
      ⊎ ((load_port (non_empty o) ≡ none) × ((n : ℕ) → NamesPort o n → ⊥))
load_port_cases o = elim (non_empty_cases o) [
  | inl (absent, e) ↦ inl (22, unfold load_port in rw e, inl (absent, refl))
  | inr (s, h, e) ↦ rw e (load_text_cases o s h)
]

or_default-ne-nil : (d : Bytes) (o : Option Bytes) → d ≢ [] → or_default d (non_empty o) ≢ []
unfolding or_default non_empty
or_default-ne-nil d none h = h
or_default-ne-nil d (some []) h = h
or_default-ne-nil d (some (c ∷ s)) h = cons-ne-nil c s

-- The loader returns 4 exactly when no host is set or a port is set that is not a number from 1 to
-- 65535. Otherwise the configuration has the environment's host, which is not empty, that port or
-- 22, and a remote command that is not empty.
pub load_config_cases :
    (env : Env)
    → ((cfg : RemoteConfig) × (load_config env ≡ some cfg)
        × Holds env.host cfg.host
        × NamesPort env.port cfg.port
        × (cfg.remote_bin ≢ []))
      ⊎ ((load_config env ≡ none) × (Absent env.host ⊎ ((n : ℕ) → NamesPort env.port n → ⊥)))
unfolding load_config
load_config_cases env = elim (non_empty_cases env.host) [
  | inl (absent, e) ↦ inr ((rw e), inl absent)
  | inr (host, h, e) ↦ elim (load_port_cases env.port) [
    | inl (n, l, named) ↦ inl (
      record {
        host = host;
        port = n;
        key_path = non_empty env.key;
        remote_bin = or_default (codes "nbs-chat") (non_empty env.bin);
        ssh_opts = non_empty env.opts;
      },
      rw (e, l),
      h,
      named,
      or_default-ne-nil (codes "nbs-chat") env.bin (cons-ne-nil _ _),
    )
    | inr (l, refused) ↦ inr ((rw (e, l)), inr refused)
  ]
]
