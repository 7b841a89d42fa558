-- ===== src/Base64/Defs.antt =====
-- The tables, `base64_encode` and `base64_decode`. Buffers are byte lists: a result `ok out` is the
-- buffer up to the returned length, `error` is -1, `abort` a failed assertion. A loop over groups of
-- three or four bytes is a recursion that takes them off the front of the list.
use epistemic_framework.Common.{
  ℕ, zero, suc, ◌+◌, ◌-◌, ◌*◌, ◌/◌, ◌%◌, ◌^◌, bit_and, bit_or, Bool, true, false, not, ◌&&◌, ◌||◌,
  List, [], ◌∷◌, ◌++◌, leb, ◌==◌, if◌then◌else◌, length, get_or, take, replicate, Bytes, codes, ◌≡◌,
  refl,
}
use epistemic_framework.Common.Outcome.{Outcome, ok, ◌>>=◌, ◌>>◌, assert, require}

abbrev pub size_max : ℕ
size_max = 2 ^ 64 - 1

abbrev pub int_max : ℕ
int_max = 2 ^ 31 - 1

abbrev pub encode_table : Bytes
encode_table = codes "ABCDEFGHIJKLMNOPQRSTUVWXYZabcdefghijklmnopqrstuvwxyz0123456789+/"

unfoldable pub encode_char : ℕ → ℕ
encode_char i = get_or encode_table i 0

-- The 256 entries, in rows: 0xFF is invalid and 64 is padding.
abbrev upto : ℕ → ℕ → List ℕ
upto zero start = []
upto (suc n) start = start ∷ upto n (start + 1)

abbrev pub decode_table : List ℕ
decode_table =
    replicate 43 0xff
    ++ (62 ∷ replicate 3 0xff
        ++ (63
            ∷ (upto 10 52
                ++ (replicate 3 0xff
                    ++ (64
                        ∷ (replicate 3 0xff
                            ++ (upto 26 0
                                ++ (replicate 6 0xff ++ (upto 26 26 ++ replicate 133 0xff)))))))))

unfoldable pub decode_char : ℕ → ℕ
decode_char c = get_or decode_table c 0xff

unfoldable pub is_valid_base64_char : ℕ → Bool
is_valid_base64_char c =
    (c == b'=' || c == b'+' || c == b'/')
    || (leb b'A' c && leb c b'Z')
    || (leb b'a' c && leb c b'z')
    || (leb b'0' c && leb c b'9')

-- `x << k`, `x >> k` on a 32-bit unsigned int.
abbrev pub shl : ℕ → ℕ → ℕ
shl x k = x * 2 ^ k % 2 ^ 32

abbrev pub shr : ℕ → ℕ → ℕ
shr x k = x / 2 ^ k

unfoldable pub base64_encoded_size : ℕ → Outcome ℕ
base64_encoded_size input_len = do
  assert (leb input_len ((size_max - 4) / 4 * 3))
  ok (((input_len + 2) / 3 * 4 + 1) % 2 ^ 64)

unfoldable pub base64_decoded_size : ℕ → Outcome ℕ
base64_decoded_size input_len = do
  assert (leb input_len (size_max - 3))
  ok ((input_len / 4 * 3 + 3) % 2 ^ 64)

-- One round of the loop over three bytes: four sextets of the 24-bit `triple`.
unfoldable pub encode_triple : ℕ → ℕ → ℕ → Bytes
encode_triple a b c =
    let triple = bit_or (bit_or (shl a 16) (shl b 8)) c in
    encode_char (bit_and (shr triple 18) 0x3f)
    ∷ encode_char (bit_and (shr triple 12) 0x3f)
    ∷ encode_char (bit_and (shr triple 6) 0x3f)
    ∷ encode_char (bit_and triple 0x3f)
    ∷ []

-- The remaining one or two bytes.
unfoldable pub encode_one : ℕ → Bytes
encode_one a =
    let triple = shl a 16 in
    encode_char (bit_and (shr triple 18) 0x3f)
    ∷ encode_char (bit_and (shr triple 12) 0x3f)
    ∷ b'='
    ∷ b'='
    ∷ []

unfoldable pub encode_two : ℕ → ℕ → Bytes
encode_two a b =
    let triple = bit_or (shl a 16) (shl b 8) in
    encode_char (bit_and (shr triple 18) 0x3f)
    ∷ encode_char (bit_and (shr triple 12) 0x3f)
    ∷ encode_char (bit_and (shr triple 6) 0x3f)
    ∷ b'='
    ∷ []

unfoldable pub encode_groups : Bytes → Bytes
encode_groups [] = []
encode_groups (a ∷ []) = encode_one a
encode_groups (a ∷ b ∷ []) = encode_two a b
encode_groups (a ∷ b ∷ c ∷ rest) = encode_triple a b c ++ encode_groups rest

unfoldable pub base64_encode : Bytes → ℕ → Outcome Bytes
base64_encode input output_size = do
  assert (leb (length input) ((size_max - 4) / 4 * 3))
  needed ← base64_encoded_size (length input)
  require (leb needed output_size)
  let output = encode_groups input
  assert (length output == needed - 1)
  assert (leb (length output) int_max)
  ok output

-- The loop that drops trailing newlines, carriage returns and spaces.
abbrev pub is_trailing : ℕ → Bool
is_trailing c = c == 10 || c == 13 || c == b' '

abbrev pub is_nil : Bytes → Bool
is_nil [] = true
is_nil (_ ∷ _) = false

unfoldable pub strip_trailing : Bytes → Bytes
strip_trailing [] = []
strip_trailing (c ∷ s) =
    let rest = strip_trailing s in if is_nil rest && is_trailing c then [] else c ∷ rest

unfoldable pub all_padding : Bytes → Bool
all_padding [] = true
all_padding (c ∷ s) = c == b'=' && all_padding s

-- The validation loop from position `i` of an input of `n` bytes, on the bytes that are left.
unfoldable pub validate : ℕ → ℕ → Bytes → Bool
unfolding all_padding
validate i n [] = true
validate i n (c ∷ s) =
    let rest = validate (i + 1) n s in
    let block_start = i / 4 * 4 in
    if not (is_valid_base64_char c)
    then false
    else if c == b'='
    then block_start + 4 == n && leb 2 (i - block_start) && all_padding s
    else rest

-- `input[i]`
unfoldable pub byte_at : Bytes → ℕ → ℕ
byte_at s i = get_or s i 0

unfoldable pub decoded_length : Bytes → ℕ
decoded_length input =
    let n = length input in
    let last = if byte_at input (n - 1) == b'=' then 1 else 0 in
    let before = if byte_at input (n - 2) == b'=' then 1 else 0 in n / 4 * 3 - last - before

-- The bytes of one group of four, when every table entry is a sextet or padding.
unfoldable pub decode_quad : ℕ → ℕ → ℕ → ℕ → Outcome Bytes
decode_quad a b c d = do
  assert (not (decode_char a == 0xff))
  assert (not (decode_char b == 0xff))
  assert (not (decode_char c == 0xff))
  assert (not (decode_char d == 0xff))
  let sextet_a = bit_and (decode_char a) 0x3f
  let sextet_b = bit_and (decode_char b) 0x3f
  let sextet_c = bit_and (decode_char c) 0x3f
  let sextet_d = bit_and (decode_char d) 0x3f
  let triple =
      bit_or (bit_or (bit_or (shl sextet_a 18) (shl sextet_b 12)) (shl sextet_c 6)) sextet_d
  ok (bit_and (shr triple 16) 0xff ∷ bit_and (shr triple 8) 0xff ∷ bit_and triple 0xff ∷ [])

-- The decode loop; `room` is `out_len - j`, and a byte is written only while there is room.
unfoldable pub decode_groups : Bytes → ℕ → Outcome Bytes
decode_groups (a ∷ b ∷ c ∷ d ∷ rest) room = do
  bytes ← decode_quad a b c d
  later ← decode_groups rest (room - 3)
  ok (take room bytes ++ later)
decode_groups _ room = ok []

unfoldable pub decode_stripped : Bytes → ℕ → Outcome Bytes
decode_stripped [] output_size = do assert (leb 1 output_size); ok []
decode_stripped (c ∷ s) output_size = do
  let input = c ∷ s
  require (length input % 4 == 0)
  require (validate 0 (length input) input)
  let out_len = decoded_length input
  require (leb out_len output_size)
  output ← decode_groups input out_len
  assert (length output == out_len)
  assert (leb out_len int_max)
  ok output

unfoldable pub base64_decode : Bytes → ℕ → Outcome Bytes
unfolding strip_trailing decode_stripped
base64_decode input output_size = decode_stripped (strip_trailing input) output_size

encode_man : base64_encode (codes "Man!") 9 ≡ ok (codes "TWFuIQ==")
unfolding base64_encode base64_encoded_size encode_groups encode_triple encode_one encode_char
encode_man = refl

decode_man : base64_decode (codes "TWFuIQ==\n") 9 ≡ ok (codes "Man!")
unfolding base64_decode decode_groups decode_quad decode_char validate is_valid_base64_char
    decoded_length byte_at
decode_man = refl

table_size : length decode_table ≡ 256
table_size = refl
