-- ===== src/Common/Decimal/Length.antt =====
-- How many digits a number has.
use epistemic_framework.Common.{
  ℕ, zero, suc, ◌+◌, ◌*◌, ◌/◌, ◌%◌, ◌^◌, ◌≤◌, ◌<◌, [], ◌∷◌, ltb, length, length-append, ◌≡◌, inl,
  inr, arith, Bool-cases,
}
use native.Mathlib.Nat.{pow-suc}
use epistemic_framework.Common.Decimal.{print_ℕ, print_ℕ_digit, print_ℕ_step}

pub length-print_ℕ_digit : (n : ℕ) → n < 10 → length (print_ℕ n) ≡ 1
length-print_ℕ_digit n h = rw (print_ℕ_digit n h)

pub length-print_ℕ_step : (n : ℕ) → 10 ≤ n → length (print_ℕ n) ≡ length (print_ℕ (n / 10)) + 1
length-print_ℕ_step n h =
    rw (print_ℕ_step n h) (length-append (print_ℕ (n / 10)) ((b'0' + n % 10) ∷ []))

positive_fuel : (fuel n : ℕ) → n < fuel → 1 ≤ length (print_ℕ n)
positive_fuel zero n h = absurd (omega arith)
positive_fuel (suc fuel) n h = elim (Bool-cases (ltb n 10)) [
  | inl small ↦ omega (arith, length-print_ℕ_digit n (ground arith))
  | inr large ↦ omega (arith, length-print_ℕ_step n (ground arith))
]

pub length-print_ℕ_pos : (n : ℕ) → 1 ≤ length (print_ℕ n)
length-print_ℕ_pos n = positive_fuel (suc n) n (omega arith)

mono_fuel : (fuel n m : ℕ) → m < fuel → n ≤ m → length (print_ℕ n) ≤ length (print_ℕ m)
mono_fuel zero n m h le = absurd (omega arith)
mono_fuel (suc fuel) n m h le = elim (Bool-cases (ltb n 10)) [
  | inl small ↦ omega (arith, length-print_ℕ_digit n (ground arith), length-print_ℕ_pos m)
  | inr large ↦ omega (
    arith,
    length-print_ℕ_step n (ground arith),
    length-print_ℕ_step m (ground arith),
    mono_fuel fuel (n / 10) (m / 10) (ground arith) (omega arith),
  )
]

-- A larger number has at least as many digits.
pub length-print_ℕ_mono : (n m : ℕ) → n ≤ m → length (print_ℕ n) ≤ length (print_ℕ m)
length-print_ℕ_mono n m = mono_fuel (suc m) n m (omega arith)

-- A number below ten times as large has at most one digit more.
pub length-print_ℕ_tenfold :
    (n m : ℕ) → m < 10 * n + 10 → length (print_ℕ m) ≤ length (print_ℕ n) + 1
length-print_ℕ_tenfold n m h = elim (Bool-cases (ltb m 10)) [
  | inl small ↦ omega (arith, length-print_ℕ_digit m (ground arith))
  | inr large ↦
      omega
        (arith, length-print_ℕ_step m (ground arith), length-print_ℕ_mono (m / 10) n (omega arith))
]

le_fuel : (fuel n : ℕ) → n < fuel → 1 ≤ n → length (print_ℕ n) ≤ n
le_fuel zero n h one = absurd (omega arith)
le_fuel (suc fuel) n h one = elim (Bool-cases (ltb n 10)) [
  | inl small ↦ omega (arith, length-print_ℕ_digit n (ground arith))
  | inr large ↦ omega (
    arith,
    length-print_ℕ_step n (ground arith),
    le_fuel fuel (n / 10) (ground arith) (ground arith),
  )
]

pub length-print_ℕ_le : (n : ℕ) → 1 ≤ n → length (print_ℕ n) ≤ n
length-print_ℕ_le n = le_fuel (suc n) n (omega arith)

-- A number below 10 ^ k has at most k digits.
pub length-print_ℕ_pow : (k n : ℕ) → 1 ≤ k → n < 10 ^ k → length (print_ℕ n) ≤ k
length-print_ℕ_pow zero n one h = absurd (omega arith)
length-print_ℕ_pow (suc zero) n one h = omega (arith, length-print_ℕ_digit n (omega arith))
length-print_ℕ_pow (suc (suc k)) n one h = elim (Bool-cases (ltb n 10)) [
  | inl small ↦ omega (arith, length-print_ℕ_digit n (ground arith))
  | inr large ↦ omega (
    arith,
    length-print_ℕ_step n (ground arith),
    length-print_ℕ_pow (suc k) (n / 10) (omega arith) (omega (arith, pow-suc 10 (suc k))),
  )
]
