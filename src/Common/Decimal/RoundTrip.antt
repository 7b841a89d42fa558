-- ===== src/Common/Decimal/RoundTrip.antt =====
-- `strtoll` reads back what `%lld` writes.
use epistemic_framework.Common.{
  ℕ, zero, suc, ◌+◌, ◌-◌, ◌*◌, ◌/◌, ◌%◌, ◌≤◌, ◌<◌, Bool, true, false, [], ◌∷◌, ◌++◌, append-nil,
  ltb, leb, ◌==◌, All, All-append, Bytes, span_until, span_until_at, span_until_none, is_space, ◌≡◌,
  refl, ◌∙◌, arith, inl, inr, Bool-cases,
}
use epistemic_framework.Common.Int.{pos, negsuc, llong_max}
use epistemic_framework.Common.Decimal.{
  print_ℕ, print_ℤ, print_ℕ_digit, print_ℕ_step, value_from, not_digit, read_digits, read_sign,
  strtoll, clamp_signed,
}

abbrev pub IsDigits : Bytes → Type 0
IsDigits = All (λ c. not_digit c ≡ false)

-- A text at which a row of digits ends.
abbrev pub EndsDigits : Bytes → Type 0
EndsDigits [] = Unit {0}
EndsDigits (c ∷ _) = not_digit c ≡ true

value_from-append : (n : ℕ) (s t : Bytes) → value_from n (s ++ t) ≡ value_from (value_from n s) t
value_from-append n [] t = refl
value_from-append n (c ∷ s) t = value_from-append (n * 10 + (c - b'0')) s t

print_fuel : (fuel n : ℕ) → n < fuel → IsDigits (print_ℕ n) × (value_from 0 (print_ℕ n) ≡ n)
print_fuel zero n h = absurd (omega arith)
print_fuel (suc fuel) n h = elim (Bool-cases (ltb n 10)) [
  | inl small ↦ rw (print_ℕ_digit n (ground arith)) ((ground arith, tt), ground arith)
  | inr large ↦
      let (digits, value) = print_fuel fuel (n / 10) (ground arith) in
      rw (print_ℕ_step n (ground arith)) (
        All-append _ (print_ℕ (n / 10)) _ digits (ground arith, tt),
        value_from-append 0 (print_ℕ (n / 10)) _ ∙ rw value (ground arith),
      )
]

pub print_ℕ-IsDigits : (n : ℕ) → IsDigits (print_ℕ n)
print_ℕ-IsDigits n = (print_fuel (suc n) n (omega arith)).0

pub value_from-print_ℕ : (n : ℕ) → value_from 0 (print_ℕ n) ≡ n
value_from-print_ℕ n = (print_fuel (suc n) n (omega arith)).1

append-cons : (s : Bytes) (c : ℕ) → (d : ℕ) × (ds : Bytes) × (s ++ (c ∷ []) ≡ d ∷ ds)
append-cons [] c = (c, [], refl)
append-cons (d ∷ s) c = (d, s ++ (c ∷ []), refl)

pub print_ℕ-cons : (n : ℕ) → (d : ℕ) × (ds : Bytes) × (print_ℕ n ≡ d ∷ ds)
print_ℕ-cons n = elim (Bool-cases (ltb n 10)) [
  | inl small ↦ (b'0' + n, [], print_ℕ_digit n (ground arith))
  | inr large ↦
      let (d, ds, e) = append-cons (print_ℕ (n / 10)) (b'0' + n % 10) in
      (d, ds, print_ℕ_step n (ground arith) ∙ e)
]

span_digits :
    (s rest : Bytes) → IsDigits s → EndsDigits rest → span_until not_digit (s ++ rest) ≡ (s, rest)
span_digits s [] h e = rw append-nil (span_until_none not_digit s h)
span_digits s (c ∷ rest) h e = span_until_at not_digit s c rest h e

read_digits_lem :
    (whole : Bytes) (negative : Bool) (d : ℕ) (ds rest : Bytes)
    → IsDigits (d ∷ ds)
    → EndsDigits rest
    → read_digits whole negative ((d ∷ ds) ++ rest) ≡ record {
      value = (clamp_signed negative (value_from 0 (d ∷ ds))).0;
      converted = true;
      rest = rest;
      out_of_range = (clamp_signed negative (value_from 0 (d ∷ ds))).1;
    }
read_digits_lem whole negative d ds rest h e =
    let s = span_digits (d ∷ ds) rest h e in unfold read_digits in rw s

read_print :
    (whole : Bytes) (negative : Bool) (n : ℕ) (rest : Bytes)
    → EndsDigits rest
    → read_digits whole negative (print_ℕ n ++ rest) ≡ record {
      value = (clamp_signed negative n).0;
      converted = true;
      rest = rest;
      out_of_range = (clamp_signed negative n).1;
    }
read_print whole negative n rest e =
    let (d, ds, p) = print_ℕ-cons n in
    let h : IsDigits (d ∷ ds) = rw p at (print_ℕ-IsDigits n) in
    let v : value_from 0 (d ∷ ds) ≡ n = rw p at (value_from-print_ℕ n) in
    rw p (read_digits_lem whole negative d ds rest h e ∙ rw v)

digit_no_space : (c : ℕ) → not_digit c ≡ false → is_space c ≡ false
digit_no_space c h = ground arith

digit_no_sign : (c : ℕ) → not_digit c ≡ false → ((c == b'-') ≡ false) × ((c == b'+') ≡ false)
digit_no_sign c h = (ground arith, ground arith)

read_unsigned :
    (d : ℕ) (ds : Bytes)
    → not_digit d ≡ false
    → strtoll (d ∷ ds) ≡ read_digits (d ∷ ds) false (d ∷ ds)
read_unsigned d ds h =
    unfold strtoll read_sign in
    rw (digit_no_space d h) (rw ((digit_no_sign d h).0, (digit_no_sign d h).1))

-- A printed number in the range of `long long`, in front of a text that does not go on with a
-- digit, is read back whole.
pub strtoll-print_ℕ :
    (n : ℕ) (rest : Bytes)
    → n ≤ llong_max
    → EndsDigits rest
    → strtoll (print_ℕ n ++ rest)
      ≡ record { value = pos n; converted = true; rest = rest; out_of_range = false }
strtoll-print_ℕ n rest fits e =
    let (d, ds, p) = print_ℕ-cons n in
    let h : IsDigits (d ∷ ds) = rw p at (print_ℕ-IsDigits n) in
    let s : strtoll (print_ℕ n ++ rest)
        ≡ read_digits (print_ℕ n ++ rest) false (print_ℕ n ++ rest) =
      rw p (read_unsigned d (ds ++ rest) h.0) in
    let r : leb n llong_max ≡ true = ground arith in
    s ∙ read_print (print_ℕ n ++ rest) false n rest e ∙ rw r

pub strtoll-print_ℤ :
    (n : ℕ) (rest : Bytes)
    → n ≤ llong_max
    → EndsDigits rest
    → strtoll (print_ℤ (negsuc n) ++ rest)
      ≡ record { value = negsuc n; converted = true; rest = rest; out_of_range = false }
strtoll-print_ℤ n rest fits e =
    let r : leb (suc n) (llong_max + 1) ≡ true = ground arith in
    unfold strtoll read_sign print_ℤ in read_print _ true (suc n) rest e ∙ rw r
