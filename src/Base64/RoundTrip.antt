-- ===== src/Base64/RoundTrip.antt =====
-- The decoding loop after the encoding loop.
use epistemic_framework.Common.{
  ℕ, suc, ◌+◌, ◌-◌, ◌*◌, ◌/◌, ◌%◌, ◌<◌, false, [], ◌∷◌, ◌==◌, if◌then◌else◌, length, take-nil, All,
  Bytes, ◌≡◌, refl, arith, ◌∙◌,
}
use epistemic_framework.Common.Outcome.{ok}
use epistemic_framework.Base64.Defs.{
  encode_char, encode_groups, byte_at, decode_quad, decode_groups, decoded_length, encode_triple,
  encode_one, encode_two,
}
use epistemic_framework.Base64.Sextets.{
  IsSextet, encode_char_lem, encode_triple_lem, encode_two_lem, encode_one_lem, decode_quad_lem,
  padding_valid,
}
use epistemic_framework.Base64.Grammar.{IsBase64, done, group, one_pad, two_pads}
use epistemic_framework.Base64.Decode.{IsByte}

sextet : (v : ℕ) → v < 64 → IsSextet (encode_char v)
sextet v h = (v, h, refl)

-- The encoder writes texts of the grammar.
pub encode_groups-IsBase64 : (s : Bytes) → All IsByte s → IsBase64 (encode_groups s)
unfolding encode_groups
encode_groups-IsBase64 [] h = done
encode_groups-IsBase64 (a ∷ []) (ha, _) =
    rw (encode_one_lem a ha) (two_pads (sextet _ (omega arith)) (sextet _ (omega arith)) refl refl)
encode_groups-IsBase64 (a ∷ b ∷ []) (ha, (hb, _)) =
    rw (encode_two_lem a b ha hb)
      (one_pad (sextet _ (omega arith)) (sextet _ (omega arith)) (sextet _ (omega arith)) refl)
encode_groups-IsBase64 (a ∷ b ∷ c ∷ s) (ha, (hb, (hc, h))) = rw (encode_triple_lem a b c ha hb hc) (
    group (sextet _ (omega arith)) (sextet _ (omega arith)) (sextet _ (omega arith))
      (sextet _ (omega arith)) (encode_groups-IsBase64 s h))

pub length-encode_groups : (s : Bytes) → length (encode_groups s) ≡ (length s + 2) / 3 * 4
unfolding encode_groups encode_triple encode_two encode_one
length-encode_groups [] = omega arith
length-encode_groups (a ∷ []) = omega arith
length-encode_groups (a ∷ b ∷ []) = omega arith
length-encode_groups (a ∷ b ∷ c ∷ s) = omega (arith, length-encode_groups s)

-- One group of four characters gives its bytes back.
quad_of_three :
    (a b c : ℕ)
    → IsByte a
    → IsByte b
    → IsByte c
    → decode_quad
        (encode_char (a / 4))
        (encode_char (a % 4 * 16 + b / 16))
        (encode_char (b % 16 * 4 + c / 64))
        (encode_char (c % 64))
      ≡ ok (a ∷ b ∷ c ∷ [])
quad_of_three a b c ha hb hc =
    decode_quad_lem _ _ _ _ (a / 4) (a % 4 * 16 + b / 16) (b % 16 * 4 + c / 64) (c % 64)
      (encode_char_lem _ (omega arith)).0 (encode_char_lem _ (omega arith)).0
      (encode_char_lem _ (omega arith)).0 (encode_char_lem _ (omega arith)).0 (omega arith)
      (omega arith) (omega arith) (omega arith)
    ∙ ground arith

quad_of_two :
    (a b : ℕ)
    → IsByte a
    → IsByte b
    → decode_quad
        (encode_char (a / 4))
        (encode_char (a % 4 * 16 + b / 16))
        (encode_char (b % 16 * 4))
        b'='
      ≡ ok (a ∷ b ∷ 0 ∷ [])
quad_of_two a b ha hb =
    decode_quad_lem _ _ _ b'=' (a / 4) (a % 4 * 16 + b / 16) (b % 16 * 4) 64
      (encode_char_lem _ (omega arith)).0 (encode_char_lem _ (omega arith)).0
      (encode_char_lem _ (omega arith)).0 padding_valid.1 (omega arith) (omega arith) (omega arith)
      (omega arith)
    ∙ ground arith

quad_of_one :
    (a : ℕ)
    → IsByte a
    → decode_quad (encode_char (a / 4)) (encode_char (a % 4 * 16)) b'=' b'=' ≡ ok (a ∷ 0 ∷ 0 ∷ [])
quad_of_one a ha =
    decode_quad_lem _ _ b'=' b'=' (a / 4) (a % 4 * 16) 64 64 (encode_char_lem _ (omega arith)).0
      (encode_char_lem _ (omega arith)).0 padding_valid.1 padding_valid.1 (omega arith)
      (omega arith) (omega arith) (omega arith)
    ∙ ground arith

-- The decoding loop gives the bytes back.
pub decode_groups-encode_groups :
    (s : Bytes) → All IsByte s → decode_groups (encode_groups s) (length s) ≡ ok s
unfolding encode_groups decode_groups
decode_groups-encode_groups [] h = refl
decode_groups-encode_groups (a ∷ []) (ha, _) = rw (encode_one_lem a ha, quad_of_one a ha)
decode_groups-encode_groups (a ∷ b ∷ []) (ha, (hb, _)) =
    rw (encode_two_lem a b ha hb, quad_of_two a b ha hb)
decode_groups-encode_groups (a ∷ b ∷ c ∷ s) (ha, (hb, (hc, h))) =
    let e : suc (suc (suc (length s))) - 3 ≡ length s = omega arith in
    rw (
      encode_triple_lem a b c ha hb hc,
      quad_of_three a b c ha hb hc,
      e,
      take-nil,
      decode_groups-encode_groups s h,
    )

-- The decoded length of a longer text is three more than that of its rest.
byte_at_four :
    (a b c d : ℕ) (s : Bytes) (i j : ℕ) → i ≡ j + 4 → byte_at (a ∷ b ∷ c ∷ d ∷ s) i ≡ byte_at s j
unfolding byte_at
byte_at_four a b c d s i j e = let e' : i ≡ suc (suc (suc (suc j))) = omega arith in rw e'

decoded_length_group :
    (a b c d e f g h : ℕ) (s : Bytes)
    → decoded_length (a ∷ b ∷ c ∷ d ∷ e ∷ f ∷ g ∷ h ∷ s) ≡ 3 + decoded_length (e ∷ f ∷ g ∷ h ∷ s)
unfolding decoded_length
decoded_length_group a b c d e f g h s =
    let t : Bytes = e ∷ f ∷ g ∷ h ∷ s in
    rw
      (
        byte_at_four a b c d t (length (a ∷ b ∷ c ∷ d ∷ t) - 1) (length t - 1) (omega arith),
        byte_at_four a b c d t (length (a ∷ b ∷ c ∷ d ∷ t) - 2) (length t - 2) (omega arith),
      )
      (ground arith)

module _ (a b c d : ℕ) where
  decoded_length_last :
      decoded_length (a ∷ b ∷ c ∷ d ∷ [])
      ≡ 3 - (if d == b'=' then 1 else 0) - (if c == b'=' then 1 else 0)
  unfolding decoded_length byte_at
  decoded_length_last = refl

not_padding : (v : ℕ) → v < 64 → (encode_char v == b'=') ≡ false
not_padding v h = (encode_char_lem v h).2

-- A group without padding in front of a text adds three bytes.
decoded_length-group :
    (a b c d : ℕ) {t : Bytes}
    → (c == b'=') ≡ false
    → (d == b'=') ≡ false
    → IsBase64 t
    → decoded_length (a ∷ b ∷ c ∷ d ∷ t) ≡ 3 + decoded_length t
decoded_length-group a b c d hc hd done =
    rw (decoded_length_last, hc, hd) (unfold decoded_length byte_at in refl)
decoded_length-group a b c d hc hd (group _ _ _ _ _) = decoded_length_group a b c d _ _ _ _ _
decoded_length-group a b c d hc hd (one_pad _ _ _ _) = decoded_length_group a b c d _ _ _ _ _
decoded_length-group a b c d hc hd (two_pads _ _ _ _) = decoded_length_group a b c d _ _ _ _ _

-- The decoded length of an encoded text is the length of the input.
pub decoded_length-encode_groups :
    (s : Bytes) → All IsByte s → decoded_length (encode_groups s) ≡ length s
unfolding encode_groups
decoded_length-encode_groups [] h = unfold decoded_length byte_at in refl
decoded_length-encode_groups (a ∷ []) (ha, _) = rw (encode_one_lem a ha, decoded_length_last)
decoded_length-encode_groups (a ∷ b ∷ []) (ha, (hb, _)) =
    rw (encode_two_lem a b ha hb, decoded_length_last, not_padding (b % 16 * 4) (omega arith))
decoded_length-encode_groups (a ∷ b ∷ c ∷ s) (ha, (hb, (hc, h))) =
    rw
      (
        encode_triple_lem a b c ha hb hc,
        decoded_length-group _ _ _ _ (not_padding (b % 16 * 4 + c / 64) (omega arith))
            (not_padding (c % 64) (omega arith)) (encode_groups-IsBase64 s h),
        decoded_length-encode_groups s h,
      )
      (omega arith)
