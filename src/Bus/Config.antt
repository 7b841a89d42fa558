-- ===== src/Bus/Config.antt =====
-- `bus_load_config`: the file config.yaml of an events directory.
use epistemic_framework.Common.{
  ℕ, zero, suc, ◌*◌, ◌/◌, ◌≤◌, Bool, true, false, ◌||◌, List, [], ◌∷◌, leb, ◌==◌, if◌then◌else◌,
  Bytes, codes, span_until, str_eq, is_space, Option, none, some, arith, inl, inr, Bool-cases,
}
use epistemic_framework.Common.Int.{ℤ, pos, negsuc, llong_max}
use epistemic_framework.Common.Decimal.{skip_spaces, strtoll}
use epistemic_framework.Common.Fgets.{fgets_lines}

pub record BusConfig : Type 0 where
  pub retention_max_bytes : ℕ
  pub dedup_window_s : ℕ
  pub ack_timeout_s : ℕ

abbrev pub default_config : BusConfig
default_config = record {
  retention_max_bytes = 16 * 1024 * 1024;
  dedup_window_s = 0;
  ack_timeout_s = 0;
}

abbrev pub max_seconds : ℕ
max_seconds = llong_max / 1000000

abbrev number_at_end : Bytes → Bool → ℤ → Option ℕ
number_at_end [] false (pos n) = some n
number_at_end [] false (negsuc n) = none
number_at_end [] true z = none
number_at_end (c ∷ s) b z = none

-- A whole number that is not negative.
unfoldable pub whole_number : Bytes → Option ℕ
whole_number s = let read = strtoll s in number_at_end read.rest read.out_of_range read.value

abbrev trim_step : ℕ → Bytes → Bytes
trim_step c [] = if is_space c then [] else c ∷ []
trim_step c (d ∷ s) = c ∷ d ∷ s

-- Without the white space at the end.
abbrev pub trim_end : Bytes → Bytes
trim_end [] = []
trim_end (c ∷ s) = trim_step c (trim_end s)

abbrev pub set_retention : BusConfig → Option ℕ → BusConfig
set_retention cfg none = cfg
set_retention cfg (some zero) = cfg
set_retention cfg (some (suc n)) = record cfg { retention_max_bytes = suc n }

abbrev pub set_window : BusConfig → Option ℕ → BusConfig
set_window cfg none = cfg
set_window cfg (some n) = if leb n max_seconds then record cfg { dedup_window_s = n } else cfg

abbrev pub set_timeout : BusConfig → Option ℕ → BusConfig
set_timeout cfg none = cfg
set_timeout cfg (some n) = if leb n max_seconds then record cfg { ack_timeout_s = n } else cfg

unfoldable pub set_value : BusConfig → Bytes → Bytes → BusConfig
set_value cfg key [] = cfg
set_value cfg key (c ∷ s) =
    if str_eq key (codes "retention-max-bytes")
    then set_retention cfg (whole_number (c ∷ s))
    else if str_eq key (codes "dedup-window")
    then set_window cfg (whole_number (c ∷ s))
    else if str_eq key (codes "ack-timeout")
    then set_timeout cfg (whole_number (c ∷ s))
    else cfg

abbrev is_colon : ℕ → Bool
is_colon c = c == b':'

abbrev pub at_colon : BusConfig → Bytes × Bytes → BusConfig
at_colon cfg (key, []) = cfg
at_colon cfg (key, _ ∷ val) = set_value cfg (trim_end key) (trim_end (skip_spaces val))

unfoldable pub config_line : BusConfig → Bytes → BusConfig
config_line cfg [] = cfg
config_line cfg (c ∷ s) =
    if c == b'#' || c == 10 || c == 13 then cfg else at_colon cfg (span_until is_colon (c ∷ s))

unfoldable pub config_lines : BusConfig → List Bytes → BusConfig
config_lines cfg [] = cfg
config_lines cfg (line ∷ lines) = config_lines (config_line cfg line) lines

-- `none` is a file that is not there.
unfoldable pub bus_load_config : Option Bytes → BusConfig
bus_load_config none = default_config
bus_load_config (some file) = config_lines default_config (fgets_lines 512 file)

-- The seconds are counted in microseconds without an overflow, and the limit is at least one byte.
abbrev pub IsConfig : BusConfig → Type 0
IsConfig cfg =
    (1 ≤ cfg.retention_max_bytes)
    × (cfg.dedup_window_s ≤ max_seconds)
    × (cfg.ack_timeout_s ≤ max_seconds)

set_retention-IsConfig :
    (cfg : BusConfig) (o : Option ℕ) → IsConfig cfg → IsConfig (set_retention cfg o)
set_retention-IsConfig cfg none h = h
set_retention-IsConfig cfg (some zero) h = h
set_retention-IsConfig cfg (some (suc n)) (_, hw, ht) = (omega arith, hw, ht)

set_window-IsConfig : (cfg : BusConfig) (o : Option ℕ) → IsConfig cfg → IsConfig (set_window cfg o)
set_window-IsConfig cfg none h = h
set_window-IsConfig cfg (some n) (hr, hw, ht) = elim (Bool-cases (leb n max_seconds)) [
  | inl small ↦ rw small (hr, ground arith, ht)
  | inr large ↦ rw large (hr, hw, ht)
]

set_timeout-IsConfig :
    (cfg : BusConfig) (o : Option ℕ) → IsConfig cfg → IsConfig (set_timeout cfg o)
set_timeout-IsConfig cfg none h = h
set_timeout-IsConfig cfg (some n) (hr, hw, ht) = elim (Bool-cases (leb n max_seconds)) [
  | inl small ↦ rw small (hr, hw, ground arith)
  | inr large ↦ rw large (hr, hw, ht)
]

set_value-IsConfig :
    (cfg : BusConfig) (key value : Bytes) → IsConfig cfg → IsConfig (set_value cfg key value)
unfolding set_value
set_value-IsConfig cfg key [] h = h
set_value-IsConfig cfg key (c ∷ s) h =
    elim (Bool-cases (str_eq key (codes "retention-max-bytes"))) [
      | inl retention ↦ rw retention (set_retention-IsConfig cfg (whole_number (c ∷ s)) h)
      | inr other ↦ elim (Bool-cases (str_eq key (codes "dedup-window"))) [
        | inl window ↦ rw (other, window) (set_window-IsConfig cfg (whole_number (c ∷ s)) h)
        | inr other' ↦ elim (Bool-cases (str_eq key (codes "ack-timeout"))) [
          | inl timeout ↦
              rw (other, other', timeout) (set_timeout-IsConfig cfg (whole_number (c ∷ s)) h)
          | inr unknown ↦ rw (other, other', unknown) h
        ]
      ]
    ]

at_colon-IsConfig :
    (cfg : BusConfig) (parts : Bytes × Bytes) → IsConfig cfg → IsConfig (at_colon cfg parts)
at_colon-IsConfig cfg (key, []) h = h
at_colon-IsConfig cfg (key, _ ∷ val) h =
    set_value-IsConfig cfg (trim_end key) (trim_end (skip_spaces val)) h

config_line-IsConfig :
    (cfg : BusConfig) (line : Bytes) → IsConfig cfg → IsConfig (config_line cfg line)
unfolding config_line
config_line-IsConfig cfg [] h = h
config_line-IsConfig cfg (c ∷ s) h = elim (Bool-cases (c == b'#' || c == 10 || c == 13)) [
  | inl skipped ↦ rw skipped h
  | inr read ↦ rw read (at_colon-IsConfig cfg (span_until is_colon (c ∷ s)) h)
]

config_lines-IsConfig :
    (cfg : BusConfig) (lines : List Bytes) → IsConfig cfg → IsConfig (config_lines cfg lines)
unfolding config_lines
config_lines-IsConfig cfg [] h = h
config_lines-IsConfig cfg (line ∷ lines) h =
    config_lines-IsConfig (config_line cfg line) lines (config_line-IsConfig cfg line h)

pub bus_load_config-IsConfig : (file : Option Bytes) → IsConfig (bus_load_config file)
unfolding bus_load_config
bus_load_config-IsConfig none = (omega arith, omega arith, omega arith)
bus_load_config-IsConfig (some file) =
    config_lines-IsConfig default_config (fgets_lines 512 file)
      (omega arith, omega arith, omega arith)
