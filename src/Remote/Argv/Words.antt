-- ===== src/Remote/Argv/Words.antt =====
-- The words that each part of the argument vector adds.
use epistemic_framework.Common.{
  ℕ, zero, suc, ◌+◌, ◌*◌, ◌≤◌, ◌<◌, Bool, true, false, ◌||◌, List, [], ◌∷◌, ◌++◌, append-nil,
  append_assoc, ltb, ◌==◌, if◌then◌else◌, length, length-append, take, All, Bytes, codes, ◌≡◌, refl,
  arith, Bool-cases, inl, inr, Option, none, some, ◌∙◌,
}
use epistemic_framework.Common.Decimal.{print_ℕ}
use epistemic_framework.Common.Outcome.{ok}
use epistemic_framework.Remote.Config.{is_nil}
use epistemic_framework.Remote.Escape.{contains_shell_metachar, is_metachar}
use epistemic_framework.Remote.Argv.{
  push, push_pair, fields_from, skip_blanks, add_opts, add_port, add_key, add_ssh_opts,
}

-- The fields without their leading spaces, those left empty dropped.
abbrev pub options : List Bytes → List Bytes
options [] = []
options (field ∷ fields) =
    let rest = options fields in
    if is_nil (skip_blanks field) then rest else skip_blanks field ∷ rest

abbrev pub option_words : List Bytes → List Bytes
option_words [] = []
option_words (opt ∷ opts) = codes "-o" ∷ opt ∷ option_words opts

abbrev pub port_words : ℕ → List Bytes
port_words port = if port == 22 then [] else codes "-p" ∷ print_ℕ port ∷ []

abbrev pub key_words : Option Bytes → List Bytes
key_words none = []
key_words (some key_path) = codes "-i" ∷ key_path ∷ []

-- At most four options are taken.
abbrev pub opts_words : Option Bytes → List Bytes
opts_words none = []
opts_words (some opts) = option_words (take 4 (options (fields_from [] opts)))

length-option_words : (k : ℕ) (opts : List Bytes) → length (option_words (take k opts)) ≤ k * 2
length-option_words zero opts = omega arith
length-option_words (suc k) [] = omega arith
length-option_words (suc k) (o ∷ opts) = omega (arith, length-option_words k opts)

pub length-port_words : (port : ℕ) → length (port_words port) ≤ 2
length-port_words port = ground arith

pub length-key_words : (key : Option Bytes) → length (key_words key) ≤ 2
length-key_words none = omega arith
length-key_words (some key) = omega arith

pub length-opts_words : (opts : Option Bytes) → length (opts_words opts) ≤ 8
length-opts_words none = omega arith
length-opts_words (some opts) = omega (arith, length-option_words 4 (options (fields_from [] opts)))

pub push_fits :
    (argv : List Bytes) (w : Bytes) → length argv < 16 → push argv w ≡ ok (argv ++ (w ∷ []))
unfolding push
push_fits argv w h = ground arith

push_pair_fits :
    (argv : List Bytes) (flag value : Bytes)
    → length argv + 1 < 16
    → push_pair argv flag value ≡ ok (argv ++ (flag ∷ value ∷ []))
unfolding push_pair
push_pair_fits argv flag value h = ground arith

add_opts_lem :
    (count k : ℕ) (argv fields : List Bytes)
    → count + k ≡ 4
    → length argv + k * 2 ≤ 14
    → add_opts count argv fields ≡ ok (argv ++ option_words (take k (options fields)))
unfolding add_opts
add_opts_lem count zero argv [] e h = rw append-nil
add_opts_lem count (suc k) argv [] e h = rw append-nil
add_opts_lem count zero argv (field ∷ fields) e h =
    let full : ltb count 4 ≡ false = ground arith in rw (full, append-nil)
add_opts_lem count (suc k) argv (field ∷ fields) e h =
    let room : ltb count 4 ≡ true = ground arith in
    elim (Bool-cases (is_nil (skip_blanks field))) [
      | inl empty ↦ rw (room, empty) (add_opts_lem count (suc k) argv fields e h)
      | inr full ↦
          rw (room, full, push_pair_fits argv (codes "-o") (skip_blanks field) (omega arith))
            (add_opts_lem (count + 1) k (argv ++ (codes "-o" ∷ skip_blanks field ∷ [])) fields
                (omega arith)
                (omega (arith, length-append argv (codes "-o" ∷ skip_blanks field ∷ [])))
              ∙ rw append_assoc)
    ]

pub add_port_lem :
    (port : ℕ) (argv : List Bytes)
    → length argv ≤ 1
    → add_port true port argv ≡ ok (argv ++ port_words port)
unfolding add_port
add_port_lem port argv h = elim (Bool-cases (port == 22)) [
  | inl e ↦ rw (e, append-nil)
  | inr e ↦ rw e (push_pair_fits argv (codes "-p") (print_ℕ port) (omega arith))
]

pub add_ssh_opts_lem :
    (opts : Option Bytes) (argv : List Bytes)
    → length argv ≤ 5
    → ((o : Bytes) → opts ≡ some o → contains_shell_metachar o ≡ false)
    → add_ssh_opts true opts argv ≡ ok (argv ++ opts_words opts)
unfolding add_ssh_opts
add_ssh_opts_lem none argv h clean = rw append-nil
add_ssh_opts_lem (some o) argv h clean =
    rw (clean o refl) (add_opts_lem 0 4 argv (fields_from [] o) (omega arith) (omega arith))

pub add_key_lem :
    (key : Option Bytes) (argv : List Bytes)
    → length argv ≤ 3
    → add_key key argv ≡ ok (argv ++ key_words key)
unfolding add_key
add_key_lem none argv h = rw append-nil
add_key_lem (some key) argv h = push_pair_fits argv (codes "-i") key (omega arith)

-- The bytes that the options must not hold.
abbrev pub dangerous : Bytes
dangerous = codes ";`$()|&<>{}!\\\n\r"

abbrev pub is_among : Bytes → ℕ → Bool
is_among [] c = false
is_among (d ∷ ds) c = c == d || is_among ds c

abbrev pub IsHarmless : Bytes → Type 0
IsHarmless = All (λ c. is_among dangerous c ≡ false)

or_assoc : (a b c : Bool) → ((a || b) || c) ≡ (a || (b || c))
or_assoc true b c = refl
or_assoc false b c = refl

or-false : (a : Bool) → (a || false) ≡ a
or-false true = refl
or-false false = refl

or_false_parts : (a b : Bool) → (a || b) ≡ false → (a ≡ false) × (b ≡ false)
or_false_parts true b h = absurd (ground arith)
or_false_parts false b h = (refl, h)

metachar_among : (c : ℕ) → is_metachar c ≡ is_among dangerous c
unfolding is_metachar
metachar_among c = simp (or_assoc, or-false)

pub harmless-metachar : (s : Bytes) → IsHarmless s → contains_shell_metachar s ≡ false
unfolding contains_shell_metachar
harmless-metachar [] h = refl
harmless-metachar (c ∷ s) (hc, h) = rw (metachar_among c, hc) (harmless-metachar s h)

pub metachar-IsHarmless : (s : Bytes) → contains_shell_metachar s ≡ false → IsHarmless s
unfolding contains_shell_metachar
metachar-IsHarmless [] h = tt
metachar-IsHarmless (c ∷ s) h =
    let e : (is_metachar c ≡ false) × (contains_shell_metachar s ≡ false) =
      or_false_parts (is_metachar c) (contains_shell_metachar s) h in
    (rw metachar_among at e.0, metachar-IsHarmless s e.1)
