-- ===== src/Base64/Sextets.antt =====
-- Laws of the two tables, and the bytes and sextets of one group.
use epistemic_framework.Common.{
  ℕ, ◌+◌, ◌*◌, ◌/◌, ◌%◌, ◌<◌, bit_and, bit_or, true, false, not, ◌&&◌, ◌||◌, [], ◌∷◌, ltb, ◌==◌,
  ==_iff, bit_and-mask, bit_or-add, ◌≡◌, refl, arith,
}
use epistemic_framework.Common.Finite.{holds_on, holds_below}
use epistemic_framework.Common.Outcome.{ok}
use epistemic_framework.Base64.Defs.{
  encode_char, decode_char, is_valid_base64_char, shl, encode_triple, encode_one, encode_two,
  decode_quad,
}

-- A character of the alphabet: the one that stands for a sextet.
abbrev pub IsSextet : ℕ → Type 0
IsSextet c = (v : ℕ) × (v < 64) × (c ≡ encode_char v)

encode_table_law :
    holds_on
      (λ i.
        decode_char (encode_char i) == i
        && is_valid_base64_char (encode_char i)
        && not (encode_char i == b'='))
      0
      64
    ≡ true
unfolding holds_on encode_char decode_char is_valid_base64_char
encode_table_law = refl

-- The decode table inverts the encode table, whose entries are valid and are not padding.
pub encode_char_lem :
    (v : ℕ)
    → v < 64
    → (decode_char (encode_char v) ≡ v)
      × (is_valid_base64_char (encode_char v) ≡ true)
      × ((encode_char v == b'=') ≡ false)
encode_char_lem v h =
    ground (arith, holds_below 64 _ v encode_table_law h, ==_iff (decode_char (encode_char v)) v)

decode_table_law :
    holds_on
      (λ c.
        not (is_valid_base64_char c)
        || c == b'='
        || (ltb (decode_char c) 64 && encode_char (decode_char c) == c))
      0
      128
    ≡ true
unfolding holds_on encode_char decode_char is_valid_base64_char
decode_table_law = refl

valid_ascii : (c : ℕ) → is_valid_base64_char c ≡ true → c < 128
unfolding is_valid_base64_char
valid_ascii c h = ground arith

-- A valid character is padding or a sextet.
pub valid-IsSextet : (c : ℕ) → is_valid_base64_char c ≡ true → (c == b'=') ≡ false → IsSextet c
valid-IsSextet c valid other = (
  decode_char c,
  ground (arith, holds_below 128 _ c decode_table_law (valid_ascii c valid)),
  ground (arith, holds_below 128 _ c decode_table_law (valid_ascii c valid)),
)

pub padding_valid : (is_valid_base64_char b'=' ≡ true) × (decode_char b'=' ≡ 64)
unfolding is_valid_base64_char decode_char
padding_valid = (refl, refl)

pub IsSextet-valid : (c : ℕ) → IsSextet c → (is_valid_base64_char c ≡ true) × ((c == b'=') ≡ false)
IsSextet-valid c (v, lt, e) = rw e ((encode_char_lem v lt).1, (encode_char_lem v lt).2)

-- A 24-bit group is the sum of its bytes, and of its sextets.
bytes_sum :
    (a b c : ℕ)
    → a < 256
    → b < 256
    → c < 256
    → bit_or (bit_or (shl a 16) (shl b 8)) c ≡ a * 65536 + b * 256 + c
bytes_sum a b c ha hb hc =
    let e1 : a * 65536 % 4294967296 ≡ a * 65536 = omega arith in
    let e2 : b * 256 % 4294967296 ≡ b * 256 = omega arith in
    let e3 : a * 65536 + b * 256 ≡ (a * 256 + b) * 256 = omega arith in
    rw (e1, e2, bit_or-add 16 a (b * 256) (omega arith), e3, bit_or-add 8 (a * 256 + b) c hc)
      (omega arith)

sextets_sum :
    (x y z w : ℕ)
    → x < 64
    → y < 64
    → z < 64
    → w < 64
    → bit_or (bit_or (bit_or (shl x 18) (shl y 12)) (shl z 6)) w
      ≡ x * 262144 + y * 4096 + z * 64 + w
sextets_sum x y z w hx hy hz hw =
    let e1 : x * 262144 % 4294967296 ≡ x * 262144 = omega arith in
    let e2 : y * 4096 % 4294967296 ≡ y * 4096 = omega arith in
    let e3 : z * 64 % 4294967296 ≡ z * 64 = omega arith in
    let e4 : x * 262144 + y * 4096 ≡ (x * 64 + y) * 4096 = omega arith in
    let e5 : (x * 64 + y) * 4096 + z * 64 ≡ (x * 4096 + y * 64 + z) * 64 = omega arith in
    rw
      (
        e1,
        e2,
        e3,
        bit_or-add 18 x (y * 4096) (omega arith),
        e4,
        bit_or-add 12 (x * 64 + y) (z * 64) (omega arith),
        e5,
        bit_or-add 6 (x * 4096 + y * 64 + z) w hw,
      )
      (omega arith)

low_six : (n : ℕ) → bit_and n 63 ≡ n % 64
low_six = bit_and-mask 6

low_eight : (n : ℕ) → bit_and n 255 ≡ n % 256
low_eight = bit_and-mask 8

-- The four characters of three bytes.
pub encode_triple_lem :
    (a b c : ℕ)
    → a < 256
    → b < 256
    → c < 256
    → encode_triple a b c
      ≡ encode_char (a / 4)
        ∷ encode_char (a % 4 * 16 + b / 16)
        ∷ encode_char (b % 16 * 4 + c / 64)
        ∷ encode_char (c % 64)
        ∷ []
unfolding encode_triple
encode_triple_lem a b c ha hb hc = rw (bytes_sum a b c ha hb hc) (simp low_six (ground arith))

pub encode_two_lem :
    (a b : ℕ)
    → a < 256
    → b < 256
    → encode_two a b
      ≡ encode_char (a / 4)
        ∷ encode_char (a % 4 * 16 + b / 16)
        ∷ encode_char (b % 16 * 4)
        ∷ b'='
        ∷ []
unfolding encode_two
encode_two_lem a b ha hb =
    let e1 : a * 65536 % 4294967296 ≡ a * 65536 = omega arith in
    let e2 : b * 256 % 4294967296 ≡ b * 256 = omega arith in
    rw (e1, e2, bit_or-add 16 a (b * 256) (omega arith)) (simp low_six (ground arith))

pub encode_one_lem :
    (a : ℕ)
    → a < 256
    → encode_one a ≡ encode_char (a / 4) ∷ encode_char (a % 4 * 16) ∷ b'=' ∷ b'=' ∷ []
unfolding encode_one
encode_one_lem a ha = simp low_six (ground arith)

not_invalid : (x : ℕ) → x < 65 → (x == 255) ≡ false
not_invalid x h = ground arith

-- The three bytes of four table entries.
pub decode_quad_lem :
    (a b c d x y z w : ℕ)
    → decode_char a ≡ x
    → decode_char b ≡ y
    → decode_char c ≡ z
    → decode_char d ≡ w
    → x < 65
    → y < 65
    → z < 65
    → w < 65
    → decode_quad a b c d
      ≡ ok (
          (x % 64 * 4 + y % 64 / 16)
          ∷ (y % 64 % 16 * 16 + z % 64 / 4)
          ∷ (z % 64 % 4 * 64 + w % 64)
          ∷ [])
unfolding decode_quad
decode_quad_lem a b c d x y z w ea eb ec ed hx hy hz hw =
    let lt64 : (n : ℕ) → n % 64 < 64 = λ n. omega arith in
    rw
      (
        ea,
        eb,
        ec,
        ed,
        not_invalid x hx,
        not_invalid y hy,
        not_invalid z hz,
        not_invalid w hw,
        low_six x,
        low_six y,
        low_six z,
        low_six w,
        sextets_sum (x % 64) (y % 64) (z % 64) (w % 64) (lt64 x) (lt64 y) (lt64 z) (lt64 w),
      )
      (simp low_eight (ground arith))
