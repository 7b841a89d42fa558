-- ===== src/ChatCli/Search/Finds.antt =====
-- The search lists exactly the messages that contain the pattern.
use epistemic_framework.Common.{
  ℕ, zero, suc, ◌+◌, true, List, [], ◌∷◌, ◌++◌, map, Bytes, str_eq_iff, Option, none, some, ◌≡◌,
  ◌↔◌, ◌⊎◌, inl, inr, Bool-cases, refl, sym, ap, arith,
}
use mathlib.Core.Path.{subst}
use epistemic_framework.ChatFile.Message.{ChatMessage}
use epistemic_framework.ChatCli.Search.{
  to_lower, has_prefix_ci, find_ci, strcasestr_portable, is_found, passes, search_from, Contains,
  Passes, At, Listed,
}

cons_parts : (a b : ℕ) (xs ys : List ℕ) → ◌≡◌ {A = List ℕ} (a ∷ xs) (b ∷ ys) → (a ≡ b) × (xs ≡ ys)
cons_parts a b xs ys e = (ground (arith, e), ground (arith, e))

prefix_sound :
    (p s : Bytes)
    → has_prefix_ci p s ≡ true
    → (same : Bytes) × (behind : Bytes) × (s ≡ same ++ behind)
      × (map to_lower same ≡ map to_lower p)
unfolding has_prefix_ci
prefix_sound [] s h = ([], s, refl, refl)
prefix_sound (p ∷ ps) (c ∷ s) h =
    let (same, behind, e, lower) = prefix_sound ps s (ground arith) in
    let first : to_lower p ≡ to_lower c = ground arith in
    (c ∷ same, behind, ap (c ∷◌) e, rw (lower, first) refl)
prefix_sound (p ∷ ps) [] h = absurd (ground arith)

prefix_complete :
    (p same behind : Bytes)
    → map to_lower same ≡ map to_lower p
    → has_prefix_ci p (same ++ behind) ≡ true
unfolding has_prefix_ci
prefix_complete [] same behind e = refl
prefix_complete (p ∷ ps) [] behind e = absurd (ground (arith, e))
prefix_complete (p ∷ ps) (c ∷ same) behind e =
    let (first, rest) =
      cons_parts (to_lower c) (to_lower p) (map to_lower same) (map to_lower ps) e in
    let later = prefix_complete ps same behind rest in ground (arith, first, later)

find_sound : (p s : Bytes) → is_found (find_ci p s) ≡ true → Contains s p
unfolding find_ci
find_sound p [] h = absurd (ground arith)
find_sound p (c ∷ s) h = elim (Bool-cases (has_prefix_ci p (c ∷ s))) [
  | inl fits ↦
      let (same, behind, e, lower) = prefix_sound p (c ∷ s) fits in ([], same, behind, e, lower)
  | inr differs ↦
      let (before, same, behind, e, lower) = find_sound p s (ground (arith, h, differs)) in
      (c ∷ before, same, behind, ap (c ∷◌) e, lower)
]

find_complete :
    (n : ℕ) (p before same behind : Bytes)
    → map to_lower same ≡ map to_lower (n ∷ p)
    → is_found (find_ci (n ∷ p) (before ++ (same ++ behind))) ≡ true
unfolding find_ci
find_complete n p [] [] behind e = absurd (ground (arith, e))
find_complete n p [] (c ∷ same) behind e =
    let fits : has_prefix_ci (n ∷ p) (c ∷ (same ++ behind)) ≡ true =
      prefix_complete (n ∷ p) (c ∷ same) behind e in
    rw fits refl
find_complete n p (c ∷ before) same behind e =
    elim (Bool-cases (has_prefix_ci (n ∷ p) (c ∷ (before ++ (same ++ behind))))) [
      | inl fits ↦ rw fits refl
      | inr differs ↦ rw differs (find_complete n p before same behind e)
    ]

pub strcasestr_iff :
    (text pattern : Bytes)
    → (is_found (strcasestr_portable text pattern) ≡ true) ↔ Contains text pattern
unfolding strcasestr_portable
strcasestr_iff text [] = ((λ h. ([], [], text, refl, refl)), (λ h. refl))
strcasestr_iff text (n ∷ pattern) = (
  find_sound (n ∷ pattern) text,
  λ (before, same, behind, e, lower). rw e (find_complete n pattern before same behind lower),
)

passes_iff : (filter : Option Bytes) (m : ChatMessage) → (passes filter m ≡ true) ↔ Passes filter m
passes_iff none m = ((λ h. tt), (λ h. refl))
passes_iff (some handle) m = str_eq_iff m.handle handle

search_keeps :
    (pattern : Bytes) (filter : Option Bytes) (k : ℕ) (m : ChatMessage) (ms : List ChatMessage)
    → passes filter m ≡ true
    → is_found (strcasestr_portable m.content pattern) ≡ true
    → search_from pattern filter k (m ∷ ms) ≡ (k, m) ∷ search_from pattern filter (k + 1) ms
unfolding search_from
search_keeps pattern filter k m ms p f = rw (p, f) refl

-- One round: the message is listed, or it is passed over for a reason.
search_round :
    (pattern : Bytes) (filter : Option Bytes) (k : ℕ) (m : ChatMessage) (ms : List ChatMessage)
    → ((passes filter m ≡ true) × (is_found (strcasestr_portable m.content pattern) ≡ true))
      ⊎ ((search_from pattern filter k (m ∷ ms) ≡ search_from pattern filter (k + 1) ms)
          × (Passes filter m → Contains m.content pattern → ⊥))
unfolding search_from
search_round pattern filter k m ms = elim (Bool-cases (passes filter m)) [
  | inr barred ↦
      inr (rw barred refl, λ p h. absurd (ground (arith, barred, (passes_iff filter m).1 p)))
  | inl let_in ↦ elim (Bool-cases (is_found (strcasestr_portable m.content pattern))) [
    | inl there ↦ inl (let_in, there)
    | inr absent ↦ inr (
      rw (let_in, absent) refl,
      λ p h. absurd (ground (arith, absent, (strcasestr_iff m.content pattern).1 h)),
    )
  ]
]

nothing-Listed :
    (pattern : Bytes) (filter : Option Bytes) (k i : ℕ) (m : ChatMessage)
    → Listed i m (search_from pattern filter k [])
    → ⊥
unfolding search_from
nothing-Listed pattern filter k i m h = h

search_sound :
    (pattern : Bytes) (filter : Option Bytes) (k i : ℕ) (m : ChatMessage) (ms : List ChatMessage)
    → Listed i m (search_from pattern filter k ms)
    → (j : ℕ) × (i ≡ k + j) × At j m ms × Passes filter m × Contains m.content pattern
search_sound pattern filter k i m [] h = absurd (nothing-Listed pattern filter k i m h)
search_sound pattern filter k i m (x ∷ ms) h = elim (search_round pattern filter k x ms) [
  | inl (p, f) ↦ elim (rw (search_keeps pattern filter k x ms p f) at h) [
    | inl (number, same) ↦ (
      0,
      omega (arith, number),
      same,
      subst (Passes filter) (sym same) ((passes_iff filter x).0 p),
      subst (λ c. Contains c pattern) (sym (ap (λ (c : ChatMessage). c.content) same))
          ((strcasestr_iff x.content pattern).0 f),
    )
    | inr later ↦
        let (j, number, at, p', h') = search_sound pattern filter (k + 1) i m ms later in
        (suc j, omega (arith, number), at, p', h')
  ]
  | inr (e, out) ↦
      let (j, number, at, p', h') = search_sound pattern filter (k + 1) i m ms (rw e at h) in
      (suc j, omega (arith, number), at, p', h')
]

search_complete :
    (pattern : Bytes) (filter : Option Bytes) (k j : ℕ) (m : ChatMessage) (ms : List ChatMessage)
    → At j m ms
    → Passes filter m
    → Contains m.content pattern
    → Listed (k + j) m (search_from pattern filter k ms)
search_complete pattern filter k zero m [] at p h = elim at [ ]
search_complete pattern filter k (suc j) m [] at p h = elim at [ ]
search_complete pattern filter k zero m (x ∷ ms) at p h =
    let p' = subst (Passes filter) at p in
    let h' = subst (λ c. Contains c pattern) (ap (λ (c : ChatMessage). c.content) at) h in
    elim (search_round pattern filter k x ms) [
      | inl (p₁, f₁) ↦ rw (search_keeps pattern filter k x ms p₁ f₁) (inl (omega arith, at))
      | inr (e, out) ↦ absurd (out p' h')
    ]
search_complete pattern filter k (suc j) m (x ∷ ms) at p h =
    let later = search_complete pattern filter (k + 1) j m ms at p h in
    let number : k + 1 + j ≡ k + suc j = omega arith in
    let later' : Listed (k + suc j) m (search_from pattern filter (k + 1) ms) =
      rw number at later in
    elim (search_round pattern filter k x ms) [
      | inl (p₁, f₁) ↦ rw (search_keeps pattern filter k x ms p₁ f₁) (inr later')
      | inr (e, out) ↦ rw e later'
    ]

-- The search lists a message with a number exactly if the message has that number in the chat, is from the handle that was
-- asked for, if one was, and the pattern stands somewhere in its text, whatever the case of the letters is; an empty
-- pattern stands in every text.
pub search_finds :
    (pattern : Bytes) (filter : Option Bytes) (i : ℕ) (m : ChatMessage) (ms : List ChatMessage)
    → Listed i m (search_from pattern filter 0 ms)
      ↔ (At i m ms × Passes filter m × Contains m.content pattern)
search_finds pattern filter i m ms = (
  λ h.
      let (j, number, at, p, found) = search_sound pattern filter 0 i m ms h in
      (subst (λ n. At n m ms) (omega (arith, number)) at, p, found),
  λ (at, p, found).
      subst (λ n. Listed n m (search_from pattern filter 0 ms)) (omega arith)
        (search_complete pattern filter 0 i m ms at p found),
)
