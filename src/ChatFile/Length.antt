-- ===== src/ChatFile/Length.antt =====
-- `compute_file_length`: the length of a file that holds its own length.
use epistemic_framework.Common.{
  ℕ, ◌+◌, ◌*◌, ◌≤◌, not, ◌==◌, if◌then◌else◌, length, Bytes, ◌≡◌, ◌⊎◌, inl, inr, arith, Bool-cases,
}
use epistemic_framework.Common.Decimal.{print_ℕ}
use epistemic_framework.Common.Decimal.Length.{
  length-print_ℕ_mono, length-print_ℕ_tenfold, length-print_ℕ_le, length-print_ℕ_digit,
}

unfoldable pub compute_file_length : Bytes → ℕ
compute_file_length content_without_length =
    let base_size = length content_without_length in
    let digits = length (print_ℕ base_size) in
    let candidate = base_size + 14 + digits in
    if not (length (print_ℕ candidate) == digits)
    then base_size + 14 + length (print_ℕ candidate)
    else candidate

-- A length that accounts for the line `file-length: N` with itself in it.
abbrev pub IsSelfConsistent : ℕ → ℕ → Type 0
IsSelfConsistent base n = n ≡ base + 14 + length (print_ℕ n)

module _ (base : ℕ) where
  abbrev digits : ℕ
  digits = length (print_ℕ base)

  abbrev candidate : ℕ
  candidate = base + 14 + digits

  one_more : length (print_ℕ (candidate + 1)) ≤ digits + 1
  one_more = elim (Bool-cases (base == 0)) [
    | inl zero_base ↦
        let none : base ≡ 0 = ground arith in
        omega (
          arith,
          length-print_ℕ_digit base,
          length-print_ℕ_digit 1,
          length-print_ℕ_tenfold 1 (candidate + 1),
        )
    | inr pos_base ↦
        let some : 1 ≤ base = ground arith in
        length-print_ℕ_tenfold base (candidate + 1) (omega (arith, length-print_ℕ_le base some))
  ]

  -- The candidate has the same number of digits, or one more and so has its successor.
  candidate-digits :
      (length (print_ℕ candidate) ≡ digits)
      ⊎ ((length (print_ℕ candidate) ≡ digits + 1)
          × (length (print_ℕ (candidate + 1)) ≡ digits + 1))
  candidate-digits = elim (Bool-cases (length (print_ℕ candidate) == digits)) [
    | inl same ↦ inl (ground arith)
    | inr other ↦
        let lo = length-print_ℕ_mono base candidate (omega arith) in
        let hi = length-print_ℕ_mono candidate (candidate + 1) (omega arith) in
        let top = one_more in inr (ground arith, ground arith)
  ]

  least :
      (n m : ℕ)
      → IsSelfConsistent base m
      → (n ≡ candidate) ⊎ ((n ≡ candidate + 1) × (length (print_ℕ candidate) ≡ digits + 1))
      → n ≤ m
  least n m e (inl at) = omega (arith, length-print_ℕ_mono base m (omega arith))
  least n m e (inr (next, more)) =
      let le : candidate ≤ m = omega (arith, length-print_ℕ_mono base m (omega arith)) in
      omega (arith, length-print_ℕ_mono candidate m le)

-- The computed length accounts for its own line, and it is the least that does.
pub compute_file_length_least :
    (content : Bytes)
    → IsSelfConsistent (length content) (compute_file_length content)
      × ((m : ℕ) → IsSelfConsistent (length content) m → compute_file_length content ≤ m)
compute_file_length_least content =
    let base = length content in
    elim (candidate-digits base) [
      | inl same ↦
          let e : compute_file_length content ≡ candidate base =
            unfold compute_file_length in ground arith in
          (rw e (omega arith), λ m h. least base _ m h (inl e))
      | inr (more, next) ↦
          let e : compute_file_length content ≡ candidate base + 1 =
            unfold compute_file_length in ground arith in
          (rw e (omega arith), λ m h. least base _ m h (inr (e, more)))
    ]

-- A rough bound.
pub compute_file_length_bound :
    (content : Bytes) → 1 ≤ length content → compute_file_length content ≤ 3 * length content + 28
compute_file_length_bound content some =
    let digits_le = length-print_ℕ_le (length content) some in
    let more = length-print_ℕ_le (candidate (length content)) (omega arith) in
    unfold compute_file_length in ground (arith, digits_le, more)
