-- ===== src/Base64/Tests.antt =====
-- The theorems on base64 at concrete inputs.
use epistemic_framework.Common.{◌<◌, ◌≤◌, ◌++◌, length, Bytes, codes, ◌≡◌, refl, ◌⊎◌, arith}
use epistemic_framework.Common.Outcome.{ok, error}
use epistemic_framework.Base64.Defs.{strip_trailing, base64_encode, base64_decode}
use epistemic_framework.Base64.Grammar.{IsBase64}
use epistemic_framework.Base64.Decode.{Accepts, Rejects, base64_decode_cases}
use epistemic_framework.Base64.Codec.{
  encoded_length, base64_encode_cases, base64_decode-base64_encode,
}

abbrev hello : Bytes
hello = codes "alice|170: hi"

base64_decode-base64_encode_example :
    (e : Bytes) × (base64_encode hello 64 ≡ ok e) × (base64_decode (e ++ codes " \n") 40 ≡ ok hello)
base64_decode-base64_encode_example =
    base64_decode-base64_encode hello (codes " \n") 64 40 (omega arith) (refl, (refl, tt))
      (omega arith) (omega arith) (omega arith) (omega arith)

base64_encode_cases_example :
    ((encoded_length (length hello) < 20)
      × ((out : Bytes) × (base64_encode hello 20 ≡ ok out)
          × (length out ≡ encoded_length (length hello))
          × IsBase64 out))
    ⊎ ((20 ≤ encoded_length (length hello)) × (base64_encode hello 20 ≡ error))
base64_encode_cases_example = base64_encode_cases hello 20 (omega arith) (omega arith)

base64_decode_cases_example :
    Accepts (strip_trailing (codes "QQ=x\n")) 8 (base64_decode (codes "QQ=x\n") 8)
    ⊎ Rejects (strip_trailing (codes "QQ=x\n")) 8 (base64_decode (codes "QQ=x\n") 8)
base64_decode_cases_example = base64_decode_cases (codes "QQ=x\n") 8 (omega arith) (omega arith)
