-- ===== src/Base64/Grammar.antt =====
-- The texts that the validation loop of `base64_decode` accepts, as a grammar.
use epistemic_framework.Common.{
  ℕ, ◌+◌, ◌-◌, ◌*◌, ◌/◌, ◌%◌, ◌≤◌, true, [], ◌∷◌, ◌==◌, length, All, Bytes, ◌≡◌, refl, ◌⊎◌, inl,
  inr, arith, ◌∙◌, Bool-cases,
}
use epistemic_framework.Base64.Defs.{is_valid_base64_char, all_padding, validate}
use epistemic_framework.Base64.Sextets.{IsSextet, valid-IsSextet, IsSextet-valid, padding_valid}

-- Groups of four characters; only the last may end in one or two padding characters.
pub data IsBase64 : Bytes → Type 0 where
  done : IsBase64 []
  group :
      {a b c d : ℕ} {rest : Bytes}
      → IsSextet a
      → IsSextet b
      → IsSextet c
      → IsSextet d
      → IsBase64 rest
      → IsBase64 (a ∷ b ∷ c ∷ d ∷ rest)
  one_pad :
      {a b c d : ℕ}
      → IsSextet a
      → IsSextet b
      → IsSextet c
      → d ≡ b'='
      → IsBase64 (a ∷ b ∷ c ∷ d ∷ [])
  two_pads :
      {a b c d : ℕ} → IsSextet a → IsSextet b → c ≡ b'=' → d ≡ b'=' → IsBase64 (a ∷ b ∷ c ∷ d ∷ [])

module _ (n : ℕ) where
  validate_sextet : (i c : ℕ) (s : Bytes) → IsSextet c → validate i n (c ∷ s) ≡ validate (i + 1) n s
  unfolding validate
  validate_sextet i c s h = ground (arith, IsSextet-valid c h)

  validate_padding :
      (i c : ℕ) (s : Bytes)
      → c ≡ b'='
      → i / 4 * 4 + 4 ≡ n
      → 2 ≤ i - i / 4 * 4
      → all_padding s ≡ true
      → validate i n (c ∷ s) ≡ true
  unfolding validate
  validate_padding i c s e last place pad = rw e (ground (arith, padding_valid))

  -- What one round of the loop has checked.
  validate_cons :
      (i c : ℕ) (s : Bytes)
      → validate i n (c ∷ s) ≡ true
      → (IsSextet c × (validate (i + 1) n s ≡ true))
        ⊎ ((c ≡ b'=') × (i / 4 * 4 + 4 ≡ n) × (2 ≤ i - i / 4 * 4) × (all_padding s ≡ true))
  unfolding validate
  validate_cons i c s h = elim (Bool-cases (is_valid_base64_char c)) [
    | inl valid ↦ elim (Bool-cases (c == b'=')) [
      | inl pad ↦ inr (ground arith, ground arith, ground arith, ground arith)
      | inr other ↦ inl (valid-IsSextet c valid other, ground arith)
    ]
    | inr invalid ↦ absurd (ground arith)
  ]

-- Every text of the grammar passes the loop from a position at a multiple of four.
pub IsBase64-validate :
    {s : Bytes} (i n : ℕ) → IsBase64 s → i % 4 ≡ 0 → n ≡ i + length s → validate i n s ≡ true
IsBase64-validate i n done h e = unfold validate in refl
IsBase64-validate i n (group {a} {b} {c} {d} {rest} ha hb hc hd t) h e =
    validate_sextet n i a _ ha
    ∙ validate_sextet n (i + 1) b _ hb
    ∙ validate_sextet n (i + 1 + 1) c _ hc
    ∙ validate_sextet n (i + 1 + 1 + 1) d _ hd
    ∙ IsBase64-validate (i + 1 + 1 + 1 + 1) n t (omega arith) (omega arith)
IsBase64-validate i n (one_pad {a} {b} {c} {d} ha hb hc e') h e =
    validate_sextet n i a _ ha
    ∙ validate_sextet n (i + 1) b _ hb
    ∙ validate_sextet n (i + 1 + 1) c _ hc
    ∙ validate_padding n (i + 1 + 1 + 1) d [] e' (omega arith) (omega arith)
        (unfold all_padding in refl)
IsBase64-validate i n (two_pads {a} {b} {c} {d} ha hb e' e'') h e =
    validate_sextet n i a _ ha
    ∙ validate_sextet n (i + 1) b _ hb
    ∙ validate_padding n (i + 1 + 1) c (d ∷ []) e' (omega arith) (omega arith)
        (unfold all_padding in rw e'')

padding_cons : (d : ℕ) (s : Bytes) → all_padding (d ∷ s) ≡ true → d ≡ b'='
unfolding all_padding
padding_cons d s h = ground arith

-- The end of a group whose first three characters are sextets.
fourth :
    (i n a b c d : ℕ) (rest : Bytes)
    → i % 4 ≡ 0
    → n ≡ i + (4 + length rest)
    → IsSextet a
    → IsSextet b
    → IsSextet c
    → validate (i + 1 + 1 + 1) n (d ∷ rest) ≡ true
    → (validate (i + 1 + 1 + 1 + 1) n rest ≡ true → IsBase64 rest)
    → IsBase64 (a ∷ b ∷ c ∷ d ∷ rest)
fourth i n a b c d [] h e ha hb hc v later = elim (validate_cons n (i + 1 + 1 + 1) d [] v) [
  | inl (hd, more) ↦ group ha hb hc hd done
  | inr (pad, last, place, tail) ↦ one_pad ha hb hc pad
]
fourth i n a b c d (x ∷ rest) h e ha hb hc v later =
    elim (validate_cons n (i + 1 + 1 + 1) d (x ∷ rest) v) [
      | inl (hd, more) ↦ group ha hb hc hd (later more)
      | inr (pad, last, place, tail) ↦ absurd (omega arith)
    ]

third :
    (i n a b c d : ℕ) (rest : Bytes)
    → i % 4 ≡ 0
    → n ≡ i + (4 + length rest)
    → IsSextet a
    → IsSextet b
    → validate (i + 1 + 1) n (c ∷ d ∷ rest) ≡ true
    → (validate (i + 1 + 1 + 1 + 1) n rest ≡ true → IsBase64 rest)
    → IsBase64 (a ∷ b ∷ c ∷ d ∷ rest)
third i n a b c d [] h e ha hb v later = elim (validate_cons n (i + 1 + 1) c (d ∷ []) v) [
  | inl (hc, more) ↦ fourth i n a b c d [] h e ha hb hc more later
  | inr (pad, last, place, tail) ↦ two_pads ha hb pad (padding_cons d [] tail)
]
third i n a b c d (x ∷ rest) h e ha hb v later =
    elim (validate_cons n (i + 1 + 1) c (d ∷ x ∷ rest) v) [
      | inl (hc, more) ↦ fourth i n a b c d (x ∷ rest) h e ha hb hc more later
      | inr (pad, last, place, tail) ↦ absurd (omega arith)
    ]

first_two :
    (i n a b : ℕ) (s : Bytes)
    → i % 4 ≡ 0
    → validate i n (a ∷ b ∷ s) ≡ true
    → IsSextet a × IsSextet b × (validate (i + 1 + 1) n s ≡ true)
first_two i n a b s h v = elim (validate_cons n i a (b ∷ s) v) [
  | inl (ha, more) ↦ elim (validate_cons n (i + 1) b s more) [
    | inl (hb, more') ↦ (ha, hb, more')
    | inr (pad, last, place, tail) ↦ absurd (omega arith)
  ]
  | inr (pad, last, place, tail) ↦ absurd (omega arith)
]

-- Whatever passes the loop, at a length that is a multiple of four, is in the grammar.
pub validate-IsBase64 :
    (s : Bytes) (i n : ℕ)
    → i % 4 ≡ 0
    → n ≡ i + length s
    → length s % 4 ≡ 0
    → validate i n s ≡ true
    → IsBase64 s
validate-IsBase64 [] i n h e l v = done
validate-IsBase64 (a ∷ []) i n h e l v = absurd (omega arith)
validate-IsBase64 (a ∷ b ∷ []) i n h e l v = absurd (omega arith)
validate-IsBase64 (a ∷ b ∷ c ∷ []) i n h e l v = absurd (omega arith)
validate-IsBase64 (a ∷ b ∷ c ∷ d ∷ rest) i n h e l v =
    let (ha, hb, more) = first_two i n a b (c ∷ d ∷ rest) h v in
    third i n a b c d rest h (omega arith) ha hb more
      (validate-IsBase64 rest (i + 1 + 1 + 1 + 1) n (omega arith) (omega arith) (omega arith))

pub IsBase64-length : {s : Bytes} → IsBase64 s → length s % 4 ≡ 0
IsBase64-length done = omega arith
IsBase64-length (group ha hb hc hd t) = omega (arith, IsBase64-length t)
IsBase64-length (one_pad ha hb hc e) = omega arith
IsBase64-length (two_pads ha hb e e') = omega arith

pub IsBase64-All : {s : Bytes} → IsBase64 s → All (λ c. is_valid_base64_char c ≡ true) s
IsBase64-All done = tt
IsBase64-All (group {a} {b} {c} {d} ha hb hc hd t) = (
  (IsSextet-valid a ha).0,
  ((IsSextet-valid b hb).0, ((IsSextet-valid c hc).0, ((IsSextet-valid d hd).0, IsBase64-All t))),
)
IsBase64-All (one_pad {a} {b} {c} {d} ha hb hc hd) = (
  (IsSextet-valid a ha).0,
  ((IsSextet-valid b hb).0, ((IsSextet-valid c hc).0, (rw hd padding_valid.0, tt))),
)
IsBase64-All (two_pads {a} {b} {c} {d} ha hb hc hd) = (
  (IsSextet-valid a ha).0,
  ((IsSextet-valid b hb).0, (rw hc padding_valid.0, (rw hd padding_valid.0, tt))),
)
