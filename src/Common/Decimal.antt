-- ===== src/Common/Decimal.antt =====
-- Decimal numbers as `printf` writes them and as `strtol` and `strtoll` read them.
pub mod RoundTrip
pub mod Length
use epistemic_framework.Common.{
  ℕ, zero, suc, ◌+◌, ◌-◌, ◌*◌, ◌/◌, ◌%◌, ◌≤◌, ◌<◌, Bool, true, false, not, ◌&&◌, ◌||◌, List, [],
  ◌∷◌, ◌++◌, append_assoc, append-nil, ltb, leb, ◌==◌, if◌then◌else◌, All, All-append, Bytes, codes,
  span_until, span_until_at, is_digit, is_space, ◌≡◌, ◌≢◌, refl, sym, ◌∙◌, ap, arith,
}
use epistemic_framework.Common.Int.{ℤ, pos, negsuc, signed, llong_max}

-- `%llu`: the last digit is written first, in front of what is there.
unfoldable pub emit_digits : ℕ → ℕ → Bytes → Bytes
emit_digits zero n out = out
emit_digits (suc fuel) n out =
    let more = emit_digits fuel (n / 10) ((b'0' + n % 10) ∷ out) in
    if ltb n 10 then (b'0' + n) ∷ out else more

unfoldable pub print_ℕ : ℕ → Bytes
unfolding emit_digits
print_ℕ n = emit_digits (suc n) n []

-- `%d` and `%lld`
unfoldable pub print_ℤ : ℤ → Bytes
unfolding print_ℕ
print_ℤ (pos n) = print_ℕ n
print_ℤ (negsuc n) = b'-' ∷ print_ℕ (suc n)

-- The number that a row of digits stands for, behind `n`.
abbrev pub value_from : ℕ → Bytes → ℕ
value_from n [] = n
value_from n (c ∷ s) = value_from (n * 10 + (c - b'0')) s

-- What `strtoll(s, &endptr, 10)` gives: the value, whether a number was read, the text at
-- `endptr`, and whether `errno` is ERANGE.
pub record Strtoll : Type 0 where
  pub value : ℤ
  pub converted : Bool
  pub rest : Bytes
  pub out_of_range : Bool

abbrev pub skip_spaces : Bytes → Bytes
skip_spaces [] = []
skip_spaces (c ∷ s) = if is_space c then skip_spaces s else c ∷ s

-- A magnitude that does not fit is cut off at the type's bound.
abbrev pub clamp_signed : Bool → ℕ → ℤ × Bool
clamp_signed false n = if leb n llong_max then (pos n, false) else (pos llong_max, true)
clamp_signed true n =
    if leb n (llong_max + 1) then (signed true n, false) else (negsuc llong_max, true)

abbrev pub not_digit : ℕ → Bool
not_digit c = not (is_digit c)

abbrev pub end_digits : Bytes → Bool → Bytes → Bytes → Strtoll
end_digits whole negative [] rest = record {
  value = pos 0;
  converted = false;
  rest = whole;
  out_of_range = false;
}
end_digits whole negative (d ∷ ds) rest =
    let (v, cut) = clamp_signed negative (value_from 0 (d ∷ ds)) in
    record { value = v; converted = true; rest = rest; out_of_range = cut }

unfoldable pub read_digits : Bytes → Bool → Bytes → Strtoll
read_digits whole negative s =
    end_digits whole negative (span_until not_digit s).0 (span_until not_digit s).1

unfoldable pub read_sign : Bytes → Bytes → Strtoll
unfolding read_digits
read_sign whole [] = read_digits whole false []
read_sign whole (c ∷ s) =
    if c == b'-'
    then read_digits whole true s
    else if c == b'+'
    then read_digits whole false s
    else read_digits whole false (c ∷ s)

unfoldable pub strtoll : Bytes → Strtoll
unfolding read_sign
strtoll s = read_sign s (skip_spaces s)

read_minus :
    strtoll (codes " -42x")
    ≡ record { value = negsuc 41; converted = true; rest = codes "x"; out_of_range = false }
unfolding strtoll span_until
read_minus = refl

print_minus : print_ℤ (negsuc 1233) ≡ codes "-1234"
unfolding print_ℤ
print_minus = refl

-- The loop writes in front of what is there, and its fuel does not matter.
emit_digits-append :
    (fuel n : ℕ) (out : Bytes) → emit_digits fuel n out ≡ emit_digits fuel n [] ++ out
unfolding emit_digits
emit_digits-append zero n out = refl
emit_digits-append (suc fuel) n out = ground (
  arith,
  emit_digits-append fuel (n / 10) ((b'0' + n % 10) ∷ out),
  emit_digits-append fuel (n / 10) ((b'0' + n % 10) ∷ []),
  append_assoc (emit_digits fuel (n / 10) []) ((b'0' + n % 10) ∷ []) out,
)

emit_digits-fuel :
    (fuel fuel' n : ℕ) (out : Bytes)
    → n < fuel
    → n < fuel'
    → emit_digits fuel n out ≡ emit_digits fuel' n out
unfolding emit_digits
emit_digits-fuel zero fuel' n out h h' = absurd (omega arith)
emit_digits-fuel (suc fuel) zero n out h h' = absurd (omega arith)
emit_digits-fuel (suc fuel) (suc fuel') n out h h' =
    ground (arith, emit_digits-fuel fuel fuel' (n / 10) ((b'0' + n % 10) ∷ out))

-- The recursion equation of the printed form.
pub print_ℕ_digit : (n : ℕ) → n < 10 → print_ℕ n ≡ (b'0' + n) ∷ []
unfolding print_ℕ
print_ℕ_digit n h = ground arith

pub print_ℕ_step : (n : ℕ) → 10 ≤ n → print_ℕ n ≡ print_ℕ (n / 10) ++ ((b'0' + n % 10) ∷ [])
unfolding print_ℕ
print_ℕ_step n h = ground (
  arith,
  emit_digits-fuel n (suc (n / 10)) (n / 10) ((b'0' + n % 10) ∷ []) (omega arith) (omega arith),
  emit_digits-append (suc (n / 10)) (n / 10) ((b'0' + n % 10) ∷ []),
)
