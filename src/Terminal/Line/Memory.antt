-- ===== src/Terminal/Line/Memory.antt =====
-- Stores and block moves in a memory whose parts are known.
use epistemic_framework.Common.{
  ℕ, suc, ◌+◌, [], ◌∷◌, ◌++◌, length, take, drop, take-length-append, get_or, Bytes, ◌≡◌, refl, ◌∙◌,
  ap, arith,
}
use epistemic_framework.Terminal.Line.{store, memmove}

pub store-append : (s t : Bytes) (x c : ℕ) → store (length s) c (s ++ (x ∷ t)) ≡ s ++ (c ∷ t)
store-append [] t x c = refl
store-append (y ∷ s) t x c = ap (y ∷◌) (store-append s t x c)

pub get_or-append : (s t : Bytes) (x d : ℕ) → get_or (s ++ (x ∷ t)) (length s) d ≡ x
get_or-append [] t x d = refl
get_or-append (y ∷ s) t x d = get_or-append s t x d

memmove_cons :
    (to from n x : ℕ) (buf : Bytes)
    → memmove (suc to) (suc from) n (x ∷ buf) ≡ x ∷ memmove to from n buf
memmove_cons to from n x buf = let e : suc to + n ≡ suc (to + n) = omega arith in rw e refl

memmove_after :
    (s : Bytes) (to from n : ℕ) (buf : Bytes)
    → memmove (length s + to) (length s + from) n (s ++ buf) ≡ s ++ memmove to from n buf
memmove_after [] to from n buf =
    let (e, e') : (0 + to ≡ to) × (0 + from ≡ from) = (omega arith, omega arith) in rw (e, e') refl
memmove_after (x ∷ s) to from n buf =
    let e : suc (length s) + to ≡ suc (length s + to) = omega arith in
    let e' : suc (length s) + from ≡ suc (length s + from) = omega arith in
    rw (e, e')
      (memmove_cons (length s + to) (length s + from) n x (s ++ buf)
        ∙ ap (x ∷◌) (memmove_after s to from n buf))

abbrev pub first_or : ℕ → Bytes → ℕ
first_or d [] = d
first_or d (x ∷ xs) = x

abbrev pub last_or : ℕ → Bytes → ℕ
last_or d [] = d
last_or d (x ∷ xs) = last_or x xs

drop_past : (t rest : Bytes) (x : ℕ) → drop (1 + length t) (t ++ (x ∷ rest)) ≡ rest
drop_past [] rest x = refl
drop_past (y ∷ t) rest x =
    let e : 1 + suc (length t) ≡ suc (1 + length t) = omega arith in rw e (drop_past t rest x)

drop_last : (t rest : Bytes) (y : ℕ) → drop (length t) (y ∷ (t ++ rest)) ≡ last_or y t ∷ rest
drop_last [] rest y = refl
drop_last (x ∷ t) rest y = drop_last t rest x

take_first : (t rest : Bytes) (x : ℕ) → take 1 (t ++ (x ∷ rest)) ≡ first_or x t ∷ []
take_first [] rest x = refl
take_first (y ∷ t) rest x = refl

-- A block that stands behind `s` moves up by one byte.
pub memmove_up :
    (s t rest : Bytes) (x : ℕ)
    → memmove (length s + 1) (length s) (length t) (s ++ (t ++ (x ∷ rest)))
      ≡ s ++ (first_or x t ∷ (t ++ rest))
memmove_up s t rest x =
    let e : length s + 0 ≡ length s = omega arith in
    let moved : memmove 1 0 (length t) (t ++ (x ∷ rest)) ≡ first_or x t ∷ (t ++ rest) =
      rw (take_first t rest x, take-length-append t (x ∷ rest), drop_past t rest x) refl in
    let at = memmove_after s 1 0 (length t) (t ++ (x ∷ rest)) in rw e at at ∙ ap (s ++◌) moved

-- And down by one, over `y`.
pub memmove_down :
    (s t rest : Bytes) (y : ℕ)
    → memmove (length s) (length s + 1) (length t) (s ++ (y ∷ (t ++ rest)))
      ≡ s ++ (t ++ (last_or y t ∷ rest))
memmove_down s t rest y =
    let e : length s + 0 ≡ length s = omega arith in
    let z : 0 + length t ≡ length t = omega arith in
    let moved : memmove 0 1 (length t) (y ∷ (t ++ rest)) ≡ t ++ (last_or y t ∷ rest) =
      rw (z, take-length-append t rest, drop_last t rest y) refl in
    let at = memmove_after s 0 1 (length t) (y ∷ (t ++ rest)) in rw e at at ∙ ap (s ++◌) moved
