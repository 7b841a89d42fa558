-- ===== src/Common/Bits.antt =====
-- `|` of disjoint bit fields and `&` with a mask of ones, as arithmetic.
use Prim.Native.Nat.{
  ℕ, zero, suc, ◌+◌, ◌-◌, ◌*◌, ◌/◌, ◌%◌, ◌^◌, ◌≤◌, ◌<◌, min, max, bit_and, bit_or, digits, bitwise,
  bit_and-bitwise, bit_or-bitwise,
}
use mathlib.Core.Path.{◌≡◌, refl, sym, ap, ◌∙◌}
use native.Mathlib.Nat.{pow-suc, one-le-pow}
use mathlib.Core.Logic.{inl, inr}
use native.Mathlib.Omega.{arith}
use epistemic_framework.Common.Tests.{leb, Bool-cases}

-- The native operations are a recursion on binary digits with fuel: any fuel that is enough gives
-- the same number.
module _ (rest : ℕ → ℕ) (digit : ℕ → ℕ → ℕ) where
  digits-none : (fuel b : ℕ) → digits rest digit fuel 0 b ≡ rest b
  digits-none zero b = refl
  digits-none (suc fuel) b = refl

  -- One unit of fuel more changes nothing, and so does not any number of them.
  digits-enough :
      (a b fuel : ℕ) → a ≤ fuel → digits rest digit fuel a b ≡ digits rest digit (suc fuel) a b
  digits-enough zero b fuel h = digits-none fuel b
  digits-enough (suc a) b zero h = absurd (omega arith)
  digits-enough (suc a) b (suc fuel) h =
      ap (λ high. high * 2 + digit (suc a % 2) (b % 2))
        (digits-enough (suc a / 2) (b / 2) fuel (omega arith))

  digits-spare : (a b fuel : ℕ) → a ≤ fuel → digits rest digit fuel a b ≡ digits rest digit a a b
  digits-spare a b zero h = let e : a ≡ 0 = omega arith in rw e refl
  digits-spare a b (suc fuel) h = elim (Bool-cases (leb a fuel)) [
    | inl within ↦
        sym (digits-enough a b fuel (ground arith)) ∙ digits-spare a b fuel (ground arith)
    | inr at ↦ let e : suc fuel ≡ a = ground arith in rw e refl
  ]

  low_digit :
      (a b : ℕ)
      → bitwise rest digit (suc a) b
        ≡ bitwise rest digit (suc a / 2) (b / 2) * 2 + digit (suc a % 2) (b % 2)
  low_digit a b = omega (arith, digits-spare (suc a / 2) (b / 2) a (omega arith))

-- Both operations, one binary digit at a time.
low_digits :
    (a b : ℕ)
    → (bit_and a b ≡ min (a % 2) (b % 2) + bit_and (a / 2) (b / 2) * 2)
      × (bit_or a b ≡ max (a % 2) (b % 2) + bit_or (a / 2) (b / 2) * 2)
low_digits zero b = (simp bit_and-bitwise (omega arith), simp bit_or-bitwise (omega arith))
low_digits (suc a) b = (
  simp bit_and-bitwise (omega (arith, low_digit (λ _. 0) min a b)),
  simp bit_or-bitwise (omega (arith, low_digit (λ y. y) max a b)),
)

-- Against 0, both at once.
against_zero : (fuel a : ℕ) → a ≤ fuel → (bit_and a 0 ≡ 0) × (bit_or a 0 ≡ a)
against_zero fuel zero h = (refl, refl)
against_zero zero (suc a) h = absurd (omega arith)
against_zero (suc fuel) (suc a) h =
    let (low, high) = against_zero fuel (suc a / 2) (omega arith) in
    (omega (arith, low, (low_digits (suc a) 0).0), omega (arith, high, (low_digits (suc a) 0).1))

double_pow : (q k : ℕ) → q * 2 ^ suc k ≡ 2 * (q * 2 ^ k)
double_pow q k = omega (arith, ap (λ (t : ℕ). q * t) (pow-suc 2 k))

-- A field above bit `k` and one below it: `|` is a sum.
pub bit_or-add : (k q r : ℕ) → r < 2 ^ k → bit_or (q * 2 ^ k) r ≡ q * 2 ^ k + r
bit_or-add zero q r h = ground (arith, (against_zero q q (omega arith)).1)
bit_or-add (suc k) q r h =
    ground (
      arith,
      (low_digits (q * 2 ^ suc k) r).1,
      double_pow q k,
      bit_or-add k q (r / 2) (omega arith),
    )

bit_and-field : (k q r : ℕ) → r < 2 ^ k → bit_and (q * 2 ^ k + r) (2 ^ k - 1) ≡ r
bit_and-field zero q r h = ground (arith, (against_zero (q * 1 + r) (q * 1 + r) (omega arith)).0)
bit_and-field (suc k) q r h = ground (
  arith,
  (low_digits (q * 2 ^ suc k + r) (2 ^ suc k - 1)).0,
  double_pow q k,
  pow-suc 2 k,
  bit_and-field k q (r / 2) (omega arith),
)

-- A mask of `k` ones keeps the remainder by `2 ^ k`.
pub bit_and-mask : (k a : ℕ) → bit_and a (2 ^ k - 1) ≡ a % 2 ^ k
bit_and-mask k a = ground (arith, one-le-pow k 2, bit_and-field k (a / 2 ^ k) (a % 2 ^ k))
