-- ===== src/Bus/Event/ReadBack.antt =====
-- The fields of a published event are read back.
use epistemic_framework.Common.{
  ℕ, zero, suc, ◌≤◌, ◌<◌, false, List, [], ◌∷◌, ◌++◌, length, length-append, take_whole, All,
  All-append, Bytes, codes, str_eq, has_prefix, span_until, span_until_at, some, ◌≡◌, refl, ap,
  arith,
}
use epistemic_framework.Common.Outcome.{ok}
use epistemic_framework.Common.Fgets.{one_line-IsOneLine, IsOneLine, with_newlines}
use epistemic_framework.Bus.Event.{
  bus_max_handle, bus_max_type, priority_from, bus_priority_from_str, bus_priority_to_str,
  event_lines, is_newline, field_value, read_field, read_fields, nothing_found, find_dedup_key,
}

-- The name of a priority, and the priority of a name.
abbrev pub IsPriority : ℕ → Bytes → Type 0
IsPriority p name = bus_priority_to_str p ≡ ok name

pub IsPriority-name :
    (p : ℕ)
    → p ≤ 3
    → (name : Bytes) × IsPriority p name
      × (bus_priority_from_str name ≡ some p)
      × IsOneLine name
      × (length name ≤ 8)
unfolding bus_priority_to_str bus_priority_from_str priority_from str_eq
IsPriority-name zero h =
    (codes "critical", refl, refl, one_line-IsOneLine (codes "critical") refl, omega arith)
IsPriority-name (suc zero) h =
    (codes "high", refl, refl, one_line-IsOneLine (codes "high") refl, omega arith)
IsPriority-name (suc (suc zero)) h =
    (codes "normal", refl, refl, one_line-IsOneLine (codes "normal") refl, omega arith)
IsPriority-name (suc (suc (suc zero))) h =
    (codes "low", refl, refl, one_line-IsOneLine (codes "low") refl, omega arith)
IsPriority-name (suc (suc (suc (suc p)))) h = absurd (omega arith)

-- A handle or type that a publish accepts: at least one byte, no white space, no NUL, and it fits
-- the reader's buffer.
abbrev pub IsWord : Bytes → Type 0
IsWord s = IsOneLine s × (length s < bus_max_handle)

no_newline : (s : Bytes) → IsOneLine s → All (λ c. is_newline c ≡ false) s
no_newline [] h = tt
no_newline (c ∷ s) (hc, h) = (ground arith, no_newline s h)

cut_newline : (s : Bytes) → IsOneLine s → (span_until is_newline (s ++ (10 ∷ []))).0 ≡ s
cut_newline s h =
    let e : span_until is_newline (s ++ (10 ∷ [])) ≡ (s, 10 ∷ []) =
      span_until_at is_newline s 10 [] (no_newline s h) refl in
    ap (λ (r : Bytes × Bytes). r.0) e

value_source : (s : Bytes) → IsOneLine s → field_value 8 ((codes "source: " ++ s) ++ (10 ∷ [])) ≡ s
unfolding field_value
value_source s h = cut_newline s h

value_type : (s : Bytes) → IsOneLine s → field_value 6 ((codes "type: " ++ s) ++ (10 ∷ [])) ≡ s
unfolding field_value
value_type s h = cut_newline s h

value_priority :
    (s : Bytes) → IsOneLine s → field_value 10 ((codes "priority: " ++ s) ++ (10 ∷ [])) ≡ s
unfolding field_value
value_priority s h = cut_newline s h

value_dedup_key :
    (s : Bytes) → IsOneLine s → field_value 11 ((codes "dedup-key: " ++ s) ++ (10 ∷ [])) ≡ s
unfolding field_value
value_dedup_key s h = cut_newline s h

module _ (source type name iso : Bytes) (p : ℕ) (more : List Bytes) where
  pub read_fields-event_lines :
      IsWord source
      → IsWord type
      → IsOneLine name
      → bus_priority_from_str name ≡ some p
      → (read_fields bus_max_handle bus_max_type nothing_found
          (with_newlines (event_lines source type name iso) ++ more)).fields
        ≡ record { priority = p; source = source; type = type }
  unfolding read_fields read_field has_prefix
  read_fields-event_lines (hs, ls) (ht, lt) hn e = rw (
    value_source source hs,
    value_type type ht,
    value_priority name hn,
    take_whole 127 source (omega arith),
    take_whole 127 type (omega arith),
    e,
  )

  pub find_dedup_key-event_lines :
      IsWord source
      → IsWord type
      → find_dedup_key 258 (with_newlines (event_lines source type name iso) ++ more)
        ≡ some (source ++ (b':' ∷ type))
  unfolding find_dedup_key has_prefix
  find_dedup_key-event_lines (hs, ls) (ht, lt) =
      let key : IsOneLine (source ++ (b':' ∷ type)) = All-append _ source _ hs (refl, ht) in
      let fits : length (source ++ (b':' ∷ type)) ≤ 257 =
        omega (arith, length-append source (b':' ∷ type)) in
      rw (
        value_dedup_key (source ++ (b':' ∷ type)) key,
        take_whole 257 (source ++ (b':' ∷ type)) fits,
      )
