-- ===== src/Base64/Strip.antt =====
-- The loop that drops the trailing whitespace of a text.
use epistemic_framework.Common.{ℕ, true, false, [], ◌∷◌, ◌++◌, All, Bytes, ◌≡◌, refl, arith}
use epistemic_framework.Base64.Defs.{is_valid_base64_char, is_trailing, strip_trailing}
use epistemic_framework.Base64.Sextets.{IsSextet, IsSextet-valid, padding_valid}
use epistemic_framework.Base64.Grammar.{IsBase64, done, group, one_pad, two_pads}

-- Trailing newlines, carriage returns and spaces are dropped, and nothing else of a valid text.
abbrev pub IsTrailing : ℕ → Type 0
IsTrailing c = is_trailing c ≡ true

strip_trailing-All : (w : Bytes) → All IsTrailing w → strip_trailing w ≡ []
unfolding strip_trailing
strip_trailing-All [] h = refl
strip_trailing-All (c ∷ w) (hc, h) = rw (strip_trailing-All w h, hc)

pub strip_trailing-append :
    (s w : Bytes) → All IsTrailing w → strip_trailing (s ++ w) ≡ strip_trailing s
unfolding strip_trailing
strip_trailing-append [] w h = strip_trailing-All w h
strip_trailing-append (c ∷ s) w h = rw (strip_trailing-append s w h)

valid_not_trailing : (c : ℕ) → is_valid_base64_char c ≡ true → is_trailing c ≡ false
unfolding is_valid_base64_char
valid_not_trailing c h = ground arith

strip_cons :
    (c : ℕ) (s : Bytes)
    → is_valid_base64_char c ≡ true
    → strip_trailing s ≡ s
    → strip_trailing (c ∷ s) ≡ c ∷ s
unfolding strip_trailing
strip_cons c s v e = ground (arith, valid_not_trailing c v)

sextet_valid : {c : ℕ} → IsSextet c → is_valid_base64_char c ≡ true
sextet_valid {c} h = (IsSextet-valid c h).0

pad_valid : {c : ℕ} → c ≡ b'=' → is_valid_base64_char c ≡ true
pad_valid e = rw e padding_valid.0

strip_nil : strip_trailing [] ≡ []
unfolding strip_trailing
strip_nil = refl

pub strip_trailing-IsBase64 : {s : Bytes} → IsBase64 s → strip_trailing s ≡ s
strip_trailing-IsBase64 done = strip_nil
strip_trailing-IsBase64 (group a b c d t) = strip_cons _ _ (sextet_valid a) (
    strip_cons _ _ (sextet_valid b) (
      strip_cons _ _ (sextet_valid c)
        (strip_cons _ _ (sextet_valid d) (strip_trailing-IsBase64 t))))
strip_trailing-IsBase64 (one_pad a b c d) = strip_cons _ _ (sextet_valid a) (
    strip_cons _ _ (sextet_valid b)
      (strip_cons _ _ (sextet_valid c) (strip_cons _ _ (pad_valid d) strip_nil)))
strip_trailing-IsBase64 (two_pads a b c d) = strip_cons _ _ (sextet_valid a) (
    strip_cons _ _ (sextet_valid b)
      (strip_cons _ _ (pad_valid c) (strip_cons _ _ (pad_valid d) strip_nil)))
