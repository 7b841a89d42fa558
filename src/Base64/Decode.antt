-- ===== src/Base64/Decode.antt =====
-- `base64_decode` on every input: what it accepts, and that its assertions never fire.
use epistemic_framework.Common.{
  ℕ, ◌+◌, ◌-◌, ◌*◌, ◌/◌, ◌%◌, ◌≤◌, ◌<◌, true, [], ◌∷◌, ◌++◌, leb, ◌==◌, length, take, All,
  All-append, All-take, length-append, length-take, Bytes, ◌≡◌, refl, ◌⊎◌, inl, inr, arith,
  Bool-cases,
}
use epistemic_framework.Common.Outcome.{Outcome, ok, error}
use epistemic_framework.Base64.Defs.{
  int_max, decode_char, decode_quad, decode_groups, byte_at, decoded_length, decode_stripped,
  strip_trailing, validate, base64_decode,
}
use epistemic_framework.Base64.Sextets.{IsSextet, encode_char_lem, decode_quad_lem, padding_valid}
use epistemic_framework.Base64.Grammar.{
  IsBase64, done, group, one_pad, two_pads, IsBase64-validate, validate-IsBase64, IsBase64-length,
}

abbrev pub IsByte : ℕ → Type 0
IsByte c = c < 256

-- The table entry of an accepted character.
data Entry (c : ℕ) : Type 0 where
  entry : (v : ℕ) → decode_char c ≡ v → v < 65 → Entry c

IsSextet-Entry : {c : ℕ} → IsSextet c → Entry c
IsSextet-Entry {c} (v, lt, e) = entry v (rw e (encode_char_lem v lt).0) (omega arith)

padding-Entry : {c : ℕ} → c ≡ b'=' → Entry c
padding-Entry e = entry 64 (rw e padding_valid.1) (omega arith)

quad_total :
    (a b c d : ℕ)
    → Entry a
    → Entry b
    → Entry c
    → Entry d
    → (x y z : ℕ) × (decode_quad a b c d ≡ ok (x ∷ y ∷ z ∷ [])) × IsByte x × IsByte y × IsByte z
quad_total a b c d (entry x ex hx) (entry y ey hy) (entry z ez hz) (entry w ew hw) = (
  x % 64 * 4 + y % 64 / 16,
  y % 64 % 16 * 16 + z % 64 / 4,
  z % 64 % 4 * 64 + w % 64,
  decode_quad_lem a b c d x y z w ex ey ez ew hx hy hz hw,
  omega arith,
  omega arith,
  omega arith,
)

quad_end :
    (a b c d room : ℕ)
    → Entry a
    → Entry b
    → Entry c
    → Entry d
    → room ≤ 3
    → (out : Bytes) × (decode_groups (a ∷ b ∷ c ∷ d ∷ []) room ≡ ok out)
      × (length out ≡ room)
      × All IsByte out
unfolding decode_groups
quad_end a b c d room ha hb hc hd h =
    let (x, y, z, e, hx, hy, hz) = quad_total a b c d ha hb hc hd in
    (
      take room (x ∷ y ∷ z ∷ []) ++ [],
      rw e,
      omega
          (arith, length-append (take room (x ∷ y ∷ z ∷ [])) [], length-take room (x ∷ y ∷ z ∷ [])),
      All-append IsByte _ [] (All-take IsByte room (x ∷ y ∷ z ∷ []) (hx, (hy, (hz, tt)))) tt,
    )

-- The loop fills the output buffer exactly, with bytes, and no assertion fires.
pub decode_groups_total :
    {s : Bytes} (room : ℕ)
    → IsBase64 s
    → room ≤ length s / 4 * 3
    → (out : Bytes) × (decode_groups s room ≡ ok out) × (length out ≡ room) × All IsByte out
unfolding decode_groups
decode_groups_total room done h = ([], refl, omega arith, tt)
decode_groups_total room (group {a} {b} {c} {d} {rest} ha hb hc hd t) h =
    let (x, y, z, e, hx, hy, hz) =
      quad_total a b c d (IsSextet-Entry ha) (IsSextet-Entry hb) (IsSextet-Entry hc)
        (IsSextet-Entry hd) in
    let (out, e', l, bytes) = decode_groups_total (room - 3) t (omega arith) in
    (
      take room (x ∷ y ∷ z ∷ []) ++ out,
      rw (e, e'),
      omega (
        arith,
        length-append (take room (x ∷ y ∷ z ∷ [])) out,
        length-take room (x ∷ y ∷ z ∷ []),
      ),
      All-append IsByte _ out (All-take IsByte room (x ∷ y ∷ z ∷ []) (hx, (hy, (hz, tt)))) bytes,
    )
decode_groups_total room (one_pad {a} {b} {c} {d} ha hb hc e) h =
    quad_end a b c d room (IsSextet-Entry ha) (IsSextet-Entry hb) (IsSextet-Entry hc)
      (padding-Entry e) (omega arith)
decode_groups_total room (two_pads {a} {b} {c} {d} ha hb e e') h =
    quad_end a b c d room (IsSextet-Entry ha) (IsSextet-Entry hb) (padding-Entry e)
      (padding-Entry e') (omega arith)

decoded_length-le : (s : Bytes) → decoded_length s ≤ length s / 4 * 3
unfolding decoded_length
decoded_length-le s = omega arith

length-strip_trailing : (s : Bytes) → length (strip_trailing s) ≤ length s
unfolding strip_trailing
length-strip_trailing [] = omega arith
length-strip_trailing (c ∷ s) = ground (arith, length-strip_trailing s)

-- What a call of the decoder does: it fills a large enough buffer or it returns -1.
abbrev pub Accepts : Bytes → ℕ → Outcome Bytes → Type 0
Accepts text size result =
    IsBase64 text
    × (decoded_length text ≤ size)
    × ((out : Bytes) × (result ≡ ok out) × (length out ≡ decoded_length text) × All IsByte out)

abbrev pub Rejects : Bytes → ℕ → Outcome Bytes → Type 0
Rejects text size result = (IsBase64 text → size < decoded_length text) × (result ≡ error)

decode_nonempty :
    (c : ℕ) (s : Bytes) (size : ℕ)
    → length (c ∷ s) ≤ int_max
    → Accepts (c ∷ s) size (decode_stripped (c ∷ s) size)
      ⊎ Rejects (c ∷ s) size (decode_stripped (c ∷ s) size)
decode_nonempty c s size short = elim (Bool-cases (length (c ∷ s) % 4 == 0)) [
  | inr e ↦ inr ((λ t. absurd (ground (arith, IsBase64-length t))), unfold decode_stripped in rw e)
  | inl e ↦ elim (Bool-cases (validate 0 (length (c ∷ s)) (c ∷ s))) [
    | inr v ↦ inr (
      (λ t.
          absurd
            (ground (arith, IsBase64-validate 0 (length (c ∷ s)) t (omega arith) (omega arith)))),
      unfold decode_stripped in rw (e, v),
    )
    | inl v ↦
        let t : IsBase64 (c ∷ s) =
          validate-IsBase64 (c ∷ s) 0 (length (c ∷ s)) (omega arith) (omega arith) (ground arith)
            v in
        let (out, f, l, bytes) =
          decode_groups_total (decoded_length (c ∷ s)) t (decoded_length-le (c ∷ s)) in
        elim (Bool-cases (leb (decoded_length (c ∷ s)) size)) [
          | inr r ↦ inr ((λ _. ground arith), unfold decode_stripped in rw (e, v, r))
          | inl r ↦
              let l' : (length out == decoded_length (c ∷ s)) ≡ true = ground arith in
              let r' : leb (decoded_length (c ∷ s)) int_max ≡ true =
                ground (arith, decoded_length-le (c ∷ s)) in
              inl (
                t,
                ground arith,
                (out, (unfold decode_stripped in rw (e, v, r, f, l', r')), l, bytes),
              )
        ]
  ]
]

decode_stripped_cases :
    (s : Bytes) (size : ℕ)
    → 1 ≤ size
    → length s ≤ int_max
    → Accepts s size (decode_stripped s size) ⊎ Rejects s size (decode_stripped s size)
decode_stripped_cases [] size one short =
    let large : leb 1 size ≡ true = ground arith in
    inl (
      done,
      unfold decoded_length byte_at in omega arith,
      ([], (unfold decode_stripped in rw large), (unfold decoded_length byte_at in refl), tt),
    )
decode_stripped_cases (c ∷ s) size one short = decode_nonempty c s size short

-- The text without its trailing newlines, carriage returns and spaces is looked at. If it is in
-- the grammar and the buffer holds its decoded length, the decoder returns that many bytes; if it
-- is not, or the buffer is too small, it returns -1. No assertion fires, for an input of at most
-- INT_MAX bytes and a buffer of at least one byte.
pub base64_decode_cases :
    (s : Bytes) (size : ℕ)
    → 1 ≤ size
    → length s ≤ int_max
    → Accepts (strip_trailing s) size (base64_decode s size)
      ⊎ Rejects (strip_trailing s) size (base64_decode s size)
unfolding base64_decode
base64_decode_cases s size one short =
    decode_stripped_cases (strip_trailing s) size one (omega (arith, length-strip_trailing s))
