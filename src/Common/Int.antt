-- ===== src/Common/Int.antt =====
-- Signed integers: the values of `int`, `long` and `long long`.
use Prim.Native.Nat.{ℕ, zero, suc, ◌-◌, ◌^◌}
use mathlib.Core.Bool.{Bool, true, false, not, ◌&&◌}
use epistemic_framework.Common.Tests.{leb}

-- `negsuc n` is -(n + 1).
pub data ℤ : Type 0 where
  pos : ℕ → ℤ
  negsuc : ℕ → ℤ

-- A sign and a magnitude.
abbrev pub signed : Bool → ℕ → ℤ
signed false n = pos n
signed true zero = pos 0
signed true (suc n) = negsuc n

-- `a <= b`
abbrev pub leb_ℤ : ℤ → ℤ → Bool
leb_ℤ (pos a) (pos b) = leb a b
leb_ℤ (pos a) (negsuc b) = false
leb_ℤ (negsuc a) (pos b) = true
leb_ℤ (negsuc a) (negsuc b) = leb b a

abbrev pub is_less : ℤ → ℤ → Bool
is_less a b = not (leb_ℤ b a)

abbrev pub within : ℤ → ℤ → ℤ → Bool
within lo hi z = leb_ℤ lo z && leb_ℤ z hi

-- The bounds of 32-bit and 64-bit signed types.
abbrev pub int_min : ℤ
int_min = negsuc (2 ^ 31 - 1)

abbrev pub int_max_ℤ : ℤ
int_max_ℤ = pos (2 ^ 31 - 1)

abbrev pub llong_max : ℕ
llong_max = 2 ^ 63 - 1
