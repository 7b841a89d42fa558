-- ===== src/Bridge/Mentions/Handles.antt =====
-- The handles that are found: distinct, and of 1 to 63 bytes of a handle.
use epistemic_framework.Common.{
  str_eq, str_eq_iff, ne_of_str_eq, All-append, ℕ, zero, suc, ◌<◌, Bool, false, not, ◌&&◌, List, [],
  ◌∷◌, ◌++◌, ◌==◌, length, take, All, Bytes, span_until-All, Option, some, ◌≡◌, refl, sym, arith,
  inl, inr, Bool-cases,
}
use epistemic_framework.Bridge.Mentions.{
  Mention, is_handle_char, is_after_email, is_known, starts_with_bang, handle_run, is_too_long,
  mention_here, all_mentions, add_new,
}

abbrev pub IsHandleByte : ℕ → Type 0
IsHandleByte c = not (is_handle_char c) ≡ false

unfoldable pub mention_of : Bytes → Mention
mention_of s = record { handle = (handle_run s).0; interrupt = starts_with_bang (handle_run s).1 }

abbrev pub IsDistinct : List Mention → Type 0
IsDistinct [] = Unit
IsDistinct (m ∷ ms) = (is_known m.handle ms ≡ false) × IsDistinct ms

-- A handle of 1 to 63 bytes that a handle may have.
abbrev pub IsHandle : Mention → Type 0
IsHandle m = (0 < length m.handle) × (length m.handle < 64) × All IsHandleByte m.handle

str_eq_swap : (a b : Bytes) → str_eq a b ≡ false → str_eq b a ≡ false
str_eq_swap a b h = elim (Bool-cases (str_eq b a)) [
  | inl same ↦ absurd (ne_of_str_eq a b h (sym ((str_eq_iff b a).0 same)))
  | inr differs ↦ differs
]

is_known_behind :
    (h : Bytes) (found : List Mention) (m : Mention)
    → is_known h found ≡ false
    → str_eq m.handle h ≡ false
    → is_known h (found ++ (m ∷ [])) ≡ false
is_known_behind h [] m fresh differs = rw differs refl
is_known_behind h (x ∷ found) m fresh differs =
    ground (arith, is_known_behind h found m (ground arith) differs)

append-IsDistinct :
    (found : List Mention) (m : Mention)
    → IsDistinct found
    → is_known m.handle found ≡ false
    → IsDistinct (found ++ (m ∷ []))
append-IsDistinct [] m distinct fresh = (refl, tt)
append-IsDistinct (x ∷ found) m (first, distinct) fresh = (
  is_known_behind x.handle found m first (str_eq_swap x.handle m.handle (ground arith)),
  append-IsDistinct found m distinct (ground arith),
)

pub add_new-IsDistinct :
    (found ms : List Mention) → IsDistinct found → IsDistinct (add_new found ms)
unfolding add_new
add_new-IsDistinct found [] distinct = distinct
add_new-IsDistinct found (m ∷ ms) distinct = elim (Bool-cases (is_known m.handle found)) [
  | inl known ↦ rw known (add_new-IsDistinct found ms distinct)
  | inr fresh ↦
      rw fresh
        (add_new-IsDistinct (found ++ (m ∷ [])) ms (append-IsDistinct found m distinct fresh))
]

pub add_new-All :
    (P : Mention → Type 0) (found ms : List Mention)
    → All P found
    → All P ms
    → All P (add_new found ms)
unfolding add_new
add_new-All P found [] old new = old
add_new-All P found (m ∷ ms) old (first, new) = elim (Bool-cases (is_known m.handle found)) [
  | inl known ↦ rw known (add_new-All P found ms old new)
  | inr fresh ↦
      rw fresh
        (add_new-All P (found ++ (m ∷ [])) ms (All-append P found (m ∷ []) old (first, tt)) new)
]

is_known-take :
    (h : Bytes) (n : ℕ) (ms : List Mention) → is_known h ms ≡ false → is_known h (take n ms) ≡ false
is_known-take h zero ms fresh = refl
is_known-take h (suc n) [] fresh = refl
is_known-take h (suc n) (m ∷ ms) fresh = ground (arith, is_known-take h n ms (ground arith))

pub take-IsDistinct : (n : ℕ) (ms : List Mention) → IsDistinct ms → IsDistinct (take n ms)
take-IsDistinct zero ms h = tt
take-IsDistinct (suc n) [] h = tt
take-IsDistinct (suc n) (m ∷ ms) (first, h) =
    (is_known-take m.handle n ms first, take-IsDistinct n ms h)

run-IsHandle : (s : Bytes) → is_too_long (handle_run s).0 ≡ false → IsHandle (mention_of s)
unfolding is_too_long mention_of
run-IsHandle s fits =
    let stop : ℕ → Bool = λ c. not (is_handle_char c) in
    (ground arith, ground arith, span_until-All stop s)

mention_here-IsHandle : (prev : Option ℕ) (c : ℕ) (s : Bytes) → All IsHandle (mention_here prev c s)
mention_here-IsHandle prev c s =
    elim (Bool-cases
      (c == b'@' && not (is_after_email prev) && not (is_too_long (handle_run s).0))) [
        | inl something ↦
            let here : mention_here prev c s ≡ mention_of s ∷ [] =
              unfold mention_here mention_of in rw something refl in
            rw here (run-IsHandle s (ground arith), tt)
        | inr nothing ↦
            let here : mention_here prev c s ≡ [] = unfold mention_here in rw nothing refl in
            rw here tt
      ]

pub all_mentions-IsHandle : (prev : Option ℕ) (s : Bytes) → All IsHandle (all_mentions prev s)
unfolding all_mentions
all_mentions-IsHandle prev [] = tt
all_mentions-IsHandle prev (c ∷ s) =
    All-append IsHandle (mention_here prev c s) (all_mentions (some c) s)
      (mention_here-IsHandle prev c s) (all_mentions-IsHandle (some c) s)
