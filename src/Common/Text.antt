-- ===== src/Common/Text.antt =====
-- C strings: lists of byte values, without the terminating NUL.
use Prim.Native.Nat.{ℕ}
use Prim.Native.Char.{code}
use Prim.Native.String.{String}
use mathlib.Core.Path.{◌≡◌, refl}
use mathlib.Core.Logic.{◌↔◌, ◌≢◌}
use mathlib.Core.Bool.{Bool, true, false, not, ◌&&◌, ◌||◌}
use mathlib.Core.List.{List, [], ◌∷◌, ◌++◌}
use native.Mathlib.Omega.{arith}
use epistemic_framework.Common.Tests.{◌==◌, leb, if◌then◌else◌}
use epistemic_framework.Common.Lists.{All}

abbrev pub Bytes : Type 0
Bytes = List ℕ

-- The bytes of an ASCII literal.
abbrev pub codes : String → Bytes
codes String.[] = []
codes (String.◌∷◌ c s) = code c ∷ codes s

-- `strcmp(a, b) == 0`
unfoldable pub str_eq : Bytes → Bytes → Bool
str_eq [] [] = true
str_eq (x ∷ xs) (y ∷ ys) = x == y && str_eq xs ys
str_eq _ _ = false

pub str_eq_iff : (a b : Bytes) → (str_eq a b ≡ true) ↔ (a ≡ b)
unfolding str_eq
str_eq_iff (x ∷ xs) (y ∷ ys) = ground (arith, str_eq_iff xs ys)
str_eq_iff _ _ = ground arith

pub str_eq_refl : (a : Bytes) → str_eq a a ≡ true
str_eq_refl a = (str_eq_iff a a).1 refl

pub ne_of_str_eq : (a b : Bytes) → str_eq a b ≡ false → a ≢ b
ne_of_str_eq a b h e = absurd (ground (arith, (str_eq_iff a b).1 e))

-- `strncmp(s, prefix, strlen(prefix)) == 0`
unfoldable pub has_prefix : Bytes → Bytes → Bool
has_prefix [] s = true
has_prefix (p ∷ ps) [] = false
has_prefix (p ∷ ps) (c ∷ s) = p == c && has_prefix ps s

-- What stands before the first byte that `stop` takes, and what stands from it on.
unfoldable pub span_until : (ℕ → Bool) → Bytes → Bytes × Bytes
span_until stop [] = ([], [])
span_until stop (c ∷ s) =
    let rest = span_until stop s in if stop c then ([], c ∷ s) else (c ∷ rest.0, rest.1)

pub span_until-append :
    (stop : ℕ → Bool) (s : Bytes) → (span_until stop s).0 ++ (span_until stop s).1 ≡ s
unfolding span_until
span_until-append stop [] = refl
span_until-append stop (c ∷ s) = ground (arith, span_until-append stop s)

-- A span stops exactly at the first byte that is taken.
pub span_until_at :
    (stop : ℕ → Bool) (s : Bytes) (c : ℕ) (rest : Bytes)
    → All (λ b. stop b ≡ false) s
    → stop c ≡ true
    → span_until stop (s ++ (c ∷ rest)) ≡ (s, c ∷ rest)
unfolding span_until
span_until_at stop [] c rest h e = rw e
span_until_at stop (b ∷ s) c rest (hb, h) e = rw (hb, span_until_at stop s c rest h e)

pub span_until_none :
    (stop : ℕ → Bool) (s : Bytes) → All (λ b. stop b ≡ false) s → span_until stop s ≡ (s, [])
unfolding span_until
span_until_none stop [] h = refl
span_until_none stop (b ∷ s) (hb, h) = rw (hb, span_until_none stop s h)

pub span_until-All : (stop : ℕ → Bool) (s : Bytes) → All (λ b. stop b ≡ false) (span_until stop s).0
unfolding span_until
span_until-All stop [] = tt
span_until-All stop (c ∷ s) = ground (arith, span_until-All stop s)

-- `isdigit`, `isalnum`, `isspace` in the C locale.
abbrev pub is_digit : ℕ → Bool
is_digit c = leb b'0' c && leb c b'9'

abbrev pub is_alnum : ℕ → Bool
is_alnum c = is_digit c || (leb b'A' c && leb c b'Z') || (leb b'a' c && leb c b'z')

abbrev pub is_space : ℕ → Bool
is_space c = c == b' ' || (leb 9 c && leb c 13)

abbrev pub Lacks : ℕ → Bytes → Type 0
Lacks b = All (λ c. c ≢ b)

abbrev pub lacks : ℕ → Bytes → Bool
lacks b [] = true
lacks b (c ∷ s) = not (c == b) && lacks b s

pub lacks-Lacks : (b : ℕ) (s : Bytes) → lacks b s ≡ true → Lacks b s
lacks-Lacks b [] h = tt
lacks-Lacks b (c ∷ s) h = ((λ e. ground arith), lacks-Lacks b s (ground arith))
