-- ===== src/Base64/Codec.antt =====
-- `base64_encode` on every input, and `base64_decode` after `base64_encode`.
use epistemic_framework.Common.{
  ℕ, ◌+◌, ◌-◌, ◌*◌, ◌/◌, ◌%◌, ◌^◌, ◌≤◌, ◌<◌, true, false, [], ◌∷◌, ◌++◌, leb, ◌==◌, length, All,
  Bytes, ◌≡◌, ◌⊎◌, inl, inr, arith, Bool-cases,
}
use epistemic_framework.Common.Outcome.{ok, error}
use epistemic_framework.Base64.Defs.{
  size_max, int_max, encode_groups, base64_encoded_size, base64_encode, decode_groups,
  decoded_length, decode_stripped, base64_decode,
}
use epistemic_framework.Base64.Grammar.{IsBase64, IsBase64-validate, IsBase64-length}
use epistemic_framework.Base64.Decode.{IsByte}
use epistemic_framework.Base64.RoundTrip.{
  encode_groups-IsBase64, length-encode_groups, decode_groups-encode_groups,
  decoded_length-encode_groups,
}
use epistemic_framework.Base64.Strip.{IsTrailing, strip_trailing-append, strip_trailing-IsBase64}

-- The number of characters that encode `n` bytes.
abbrev pub encoded_length : ℕ → ℕ
encoded_length n = (n + 2) / 3 * 4

module _ (s : Bytes) (size : ℕ) (short : encoded_length (length s) ≤ int_max) where
  pub base64_encode_fits :
      encoded_length (length s) < size → base64_encode s size ≡ ok (encode_groups s)
  unfolding base64_encode base64_encoded_size
  base64_encode_fits h =
      let e : ((length s + 2) / 3 * 4 + 1) % 2 ^ 64 ≡ (length s + 2) / 3 * 4 + 1 = omega arith in
      let b : leb (length s) ((size_max - 4) / 4 * 3) ≡ true = ground arith in
      let r : leb ((length s + 2) / 3 * 4 + 1) size ≡ true = ground arith in
      let l : (length (encode_groups s) == (length s + 2) / 3 * 4 + 1 - 1) ≡ true =
        ground (arith, length-encode_groups s) in
      let m : leb (length (encode_groups s)) int_max ≡ true =
        ground (arith, length-encode_groups s) in
      rw (b, e, r, l, m)

  encode_too_small : size ≤ encoded_length (length s) → base64_encode s size ≡ error
  unfolding base64_encode base64_encoded_size
  encode_too_small h =
      let e : ((length s + 2) / 3 * 4 + 1) % 2 ^ 64 ≡ (length s + 2) / 3 * 4 + 1 = omega arith in
      let b : leb (length s) ((size_max - 4) / 4 * 3) ≡ true = ground arith in
      let r : leb ((length s + 2) / 3 * 4 + 1) size ≡ false = ground arith in rw (b, e, r)

-- Bytes whose code has at most INT_MAX characters: a buffer that holds the code and its NUL gets a
-- text of the Base64 grammar of exactly four characters for each three bytes begun, and for any
-- smaller buffer the encoder returns -1. No assertion fires.
pub base64_encode_cases :
    (s : Bytes) (size : ℕ)
    → All IsByte s
    → encoded_length (length s) ≤ int_max
    → ((encoded_length (length s) < size)
        × ((out : Bytes) × (base64_encode s size ≡ ok out)
            × (length out ≡ encoded_length (length s))
            × IsBase64 out))
      ⊎ ((size ≤ encoded_length (length s)) × (base64_encode s size ≡ error))
base64_encode_cases s size bytes short = elim (Bool-cases (leb size (encoded_length (length s)))) [
  | inl small ↦ inr (ground arith, encode_too_small s size short (ground arith))
  | inr large ↦ inl (
    ground arith,
    (
      encode_groups s,
      base64_encode_fits s size short (ground arith),
      length-encode_groups s,
      encode_groups-IsBase64 s bytes,
    ),
  )
]

decode_valid :
    (s t : Bytes) (size : ℕ)
    → IsBase64 t
    → decoded_length t ≡ length s
    → decode_groups t (length s) ≡ ok s
    → 1 ≤ size
    → length s ≤ size
    → length s ≤ int_max
    → decode_stripped t size ≡ ok s
unfolding decode_stripped decode_groups
decode_valid s [] size b l d one fits short = let g : leb 1 size ≡ true = ground arith in rw g d
decode_valid s (c ∷ t) size b l d one fits short =
    let v = IsBase64-validate 0 (length (c ∷ t)) b (omega arith) (omega arith) in
    let f : leb (length s) size ≡ true = ground arith in
    let g : leb (length s) int_max ≡ true = ground arith in
    let h : (length s == length s) ≡ true = ground arith in
    let m : (length (c ∷ t) % 4 == 0) ≡ true = ground (arith, IsBase64-length b) in
    rw (m, v, l, f, d, h, g)

pub base64_decode-encode_groups :
    (s w : Bytes) (size : ℕ)
    → All IsByte s
    → All IsTrailing w
    → encoded_length (length s) ≤ int_max
    → 1 ≤ size
    → length s ≤ size
    → base64_decode (encode_groups s ++ w) size ≡ ok s
unfolding base64_decode
base64_decode-encode_groups s w size bytes trailing short one fits =
    let t = encode_groups-IsBase64 s bytes in
    rw (strip_trailing-append (encode_groups s) w trailing, strip_trailing-IsBase64 t)
      (decode_valid s (encode_groups s) size t (decoded_length-encode_groups s bytes)
        (decode_groups-encode_groups s bytes) one fits (omega arith))

-- Bytes whose code has at most INT_MAX characters are encoded, in a buffer that is large enough,
-- to a text that decodes to them, also with newlines, carriage returns and spaces behind it.
pub base64_decode-base64_encode :
    (s w : Bytes) (size_in size_out : ℕ)
    → All IsByte s
    → All IsTrailing w
    → encoded_length (length s) ≤ int_max
    → encoded_length (length s) < size_in
    → 1 ≤ size_out
    → length s ≤ size_out
    → (e : Bytes) × (base64_encode s size_in ≡ ok e) × (base64_decode (e ++ w) size_out ≡ ok s)
base64_decode-base64_encode s w size_in size_out bytes trailing short room one fits = (
  encode_groups s,
  base64_encode_fits s size_in short room,
  base64_decode-encode_groups s w size_out bytes trailing short one fits,
)
