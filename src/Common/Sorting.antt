-- ===== src/Common/Sorting.antt =====
-- Lists in another order, and an insertion sort that does what the programs rely on `qsort` for.
use epistemic_framework.Common.{
  ◌≤◌, sym, Bool, true, false, List, [], ◌∷◌, if◌then◌else◌, All, All-map, ◌≡◌, refl, inl, inr,
  Bool-cases,
}
use epistemic_framework.Common.Int.{ℤ, pos, negsuc, leb_ℤ, is_less}
use native.Mathlib.Omega.{arith}

-- The same items in another order.
pub data Reordered {A : Type 0} : List A → List A → Type 0 where
  none_left : Reordered [] []
  keep : {e : A} {xs ys : List A} → Reordered xs ys → Reordered (e ∷ xs) (e ∷ ys)
  swap : {e f : A} {xs : List A} → Reordered (e ∷ f ∷ xs) (f ∷ e ∷ xs)
  both : {xs ys zs : List A} → Reordered xs ys → Reordered ys zs → Reordered xs zs

pub Reordered_refl : {A : Type 0} (es : List A) → Reordered es es
Reordered_refl [] = none_left
Reordered_refl (e ∷ es) = keep (Reordered_refl es)

pub leb_ℤ_total : (a b : ℤ) → leb_ℤ a b ≡ false → leb_ℤ b a ≡ true
leb_ℤ_total (pos a) (pos b) h = ground arith
leb_ℤ_total (pos a) (negsuc b) h = refl
leb_ℤ_total (negsuc a) (pos b) h = absurd (ground arith)
leb_ℤ_total (negsuc a) (negsuc b) h = ground arith

pub leb_ℤ_trans : (a b c : ℤ) → leb_ℤ a b ≡ true → leb_ℤ b c ≡ true → leb_ℤ a c ≡ true
leb_ℤ_trans (pos a) (pos b) (pos c) h k = ground arith
leb_ℤ_trans (pos a) (pos b) (negsuc c) h k = absurd (ground arith)
leb_ℤ_trans (pos a) (negsuc b) c h k = absurd (ground arith)
leb_ℤ_trans (negsuc a) b (pos c) h k = refl
leb_ℤ_trans (negsuc a) (pos b) (negsuc c) h k = absurd (ground arith)
leb_ℤ_trans (negsuc a) (negsuc b) (negsuc c) h k = ground arith

abbrev pub AtMost : ℤ → ℤ → Type 0
AtMost (pos a) (pos b) = a ≤ b
AtMost (pos a) (negsuc b) = ⊥
AtMost (negsuc a) (pos b) = Unit
AtMost (negsuc a) (negsuc b) = b ≤ a

pub at_most : (a b : ℤ) → leb_ℤ a b ≡ true → AtMost a b
at_most (pos a) (pos b) h = ground arith
at_most (pos a) (negsuc b) h = absurd (ground arith)
at_most (negsuc a) (pos b) h = tt
at_most (negsuc a) (negsuc b) h = ground arith

-- Two times compared as -1, 0 or 1.
pub compared_times :
    (a b : ℤ)
    → leb_ℤ (if is_less a b then negsuc 0 else if is_less b a then pos 1 else pos 0) (pos 0)
      ≡ leb_ℤ a b
compared_times a b = elim (Bool-cases (leb_ℤ b a)) [
  | inr less ↦ rw less (sym (leb_ℤ_total b a less))
  | inl back ↦ elim (Bool-cases (leb_ℤ a b)) [
    | inl forth ↦ rw (back, forth) refl
    | inr more ↦ rw (back, more) refl
  ]
]

module _ {A : Type 0} (le : A → A → Bool) where
  -- Every item comes before those behind it, or is their equal.
  abbrev pub IsSorted : List A → Type 0
  IsSorted [] = Unit {0}
  IsSorted (e ∷ es) = All (λ later. le e later ≡ true) es × IsSorted es

  abbrev pub insert : A → List A → List A
  insert e [] = e ∷ []
  insert e (x ∷ xs) = let rest = insert e xs in if le e x then e ∷ x ∷ xs else x ∷ rest

  abbrev pub insertion_sort : List A → List A
  insertion_sort [] = []
  insertion_sort (e ∷ es) = insert e (insertion_sort es)

  insert-Reordered : (e : A) (xs : List A) → Reordered (e ∷ xs) (insert e xs)
  insert-Reordered e [] = keep none_left
  insert-Reordered e (x ∷ xs) = elim (Bool-cases (le e x)) [
    | inl first ↦ rw first (Reordered_refl (e ∷ x ∷ xs))
    | inr later ↦ rw later (both swap (keep (insert-Reordered e xs)))
  ]

  insert-All : (P : A → Type 0) (e : A) (xs : List A) → P e → All P xs → All P (insert e xs)
  insert-All P e [] he h = (he, tt)
  insert-All P e (x ∷ xs) he (hx, h) = elim (Bool-cases (le e x)) [
    | inl first ↦ rw first (he, (hx, h))
    | inr later ↦ rw later (hx, insert-All P e xs he h)
  ]

  module _ (total : (a b : A) → le a b ≡ false → le b a ≡ true)
      (trans : (a b c : A) → le a b ≡ true → le b c ≡ true → le a c ≡ true) where
    insert-IsSorted : (e : A) (xs : List A) → IsSorted xs → IsSorted (insert e xs)
    insert-IsSorted e [] h = (tt, tt)
    insert-IsSorted e (x ∷ xs) (hx, h) = elim (Bool-cases (le e x)) [
      | inl first ↦ rw first ((first, All-map _ _ (λ y k. trans e x y first k) xs hx), (hx, h))
      | inr later ↦ rw later (insert-All _ e xs (total e x later) hx, insert-IsSorted e xs h)
    ]

    pub insertion_sort_sorts :
        (es : List A) → Reordered es (insertion_sort es) × IsSorted (insertion_sort es)
    insertion_sort_sorts [] = (none_left, tt)
    insertion_sort_sorts (e ∷ es) =
        let (reordered, sorted) = insertion_sort_sorts es in
        (
          both (keep reordered) (insert-Reordered e (insertion_sort es)),
          insert-IsSorted e (insertion_sort es) sorted,
        )

-- `compare(a, b) <= 0`
abbrev pub says_first : {A : Type 0} → (A → A → ℤ) → A → A → Bool
says_first compare a b = leb_ℤ (compare a b) (pos 0)

-- What the C standard wants of a comparison function.
abbrev pub IsOrder : {A : Type 0} → (A → A → ℤ) → Type 0
IsOrder {A} compare =
    ((a b : A) → says_first compare a b ≡ false → says_first compare b a ≡ true)
    × ((a b c : A)
        → says_first compare a b ≡ true
        → says_first compare b c ≡ true
        → says_first compare a c ≡ true)

-- What it promises of `qsort`.
abbrev pub Sorts : {A : Type 0} → ((A → A → ℤ) → List A → List A) → Type 0
Sorts {A} qsort =
    (compare : A → A → ℤ)
    → IsOrder compare
    → (es : List A)
    → Reordered es (qsort compare es) × IsSorted (says_first compare) (qsort compare es)

-- An insertion sort that can stand for `qsort`.
abbrev pub sort_by : {A : Type 0} → (A → A → ℤ) → List A → List A
sort_by compare = insertion_sort (says_first compare)

pub sort_by-Sorts : {A : Type 0} → Sorts (sort_by {A = A})
sort_by-Sorts compare (total, trans) = insertion_sort_sorts (says_first compare) total trans

pub All-Reordered :
    {A : Type 0} (P : A → Type 0) {xs ys : List A} → Reordered xs ys → All P xs → All P ys
All-Reordered P none_left h = h
All-Reordered P (keep r) (he, h) = (he, All-Reordered P r h)
All-Reordered P swap (he, (hf, h)) = (hf, (he, h))
All-Reordered P (both r r') h = All-Reordered P r' (All-Reordered P r h)

-- The items that a test takes.
abbrev pub filter : {A : Type 0} → (A → Bool) → List A → List A
filter test [] = []
filter test (e ∷ es) = let rest = filter test es in if test e then e ∷ rest else rest

filter-keep :
    {A : Type 0} (test : A → Bool) (e : A) (xs ys : List A)
    → Reordered (filter test xs) (filter test ys)
    → Reordered (filter test (e ∷ xs)) (filter test (e ∷ ys))
filter-keep test e xs ys r = elim (Bool-cases (test e)) [
  | inl taken ↦ rw taken (keep r)
  | inr left_out ↦ rw left_out r
]

filter-swap :
    {A : Type 0} (test : A → Bool) (e f : A) (xs : List A)
    → Reordered (filter test (e ∷ f ∷ xs)) (filter test (f ∷ e ∷ xs))
filter-swap test e f xs = elim (Bool-cases (test e)) [
  | inl e_taken ↦ elim (Bool-cases (test f)) [
    | inl f_taken ↦ rw (e_taken, f_taken) swap
    | inr f_out ↦ rw (e_taken, f_out) (Reordered_refl (e ∷ filter test xs))
  ]
  | inr e_out ↦ elim (Bool-cases (test f)) [
    | inl f_taken ↦ rw (e_out, f_taken) (Reordered_refl (f ∷ filter test xs))
    | inr f_out ↦ rw (e_out, f_out) (Reordered_refl (filter test xs))
  ]
]

pub filter-Reordered :
    {A : Type 0} (test : A → Bool) {xs ys : List A}
    → Reordered xs ys
    → Reordered (filter test xs) (filter test ys)
filter-Reordered test none_left = none_left
filter-Reordered test (keep {e} {xs} {ys} r) = filter-keep test e xs ys (filter-Reordered test r)
filter-Reordered test (swap {e} {f} {xs}) = filter-swap test e f xs
filter-Reordered test (both r r') = both (filter-Reordered test r) (filter-Reordered test r')

filter-All :
    {A : Type 0} (P : A → Type 0) (test : A → Bool) (es : List A)
    → All P es
    → All P (filter test es)
filter-All P test [] h = tt
filter-All P test (e ∷ es) (he, h) = elim (Bool-cases (test e)) [
  | inl taken ↦ rw taken (he, filter-All P test es h)
  | inr left_out ↦ rw left_out (filter-All P test es h)
]

pub filter-IsSorted :
    {A : Type 0} (le : A → A → Bool) (test : A → Bool) (es : List A)
    → IsSorted le es
    → IsSorted le (filter test es)
filter-IsSorted le test [] h = tt
filter-IsSorted le test (e ∷ es) (he, h) = elim (Bool-cases (test e)) [
  | inl taken ↦ rw taken (filter-All _ test es he, filter-IsSorted le test es h)
  | inr left_out ↦ rw left_out (filter-IsSorted le test es h)
]
