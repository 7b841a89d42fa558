-- ===== src/Bridge/Mentions/Reference.antt =====
-- The mentions of a message, told without the code's loop and character tests.
use epistemic_framework.Common.{
  All-map, ℕ, ◌<◌, Bool, true, false, not, ◌&&◌, ◌||◌, List, [], ◌∷◌, ◌++◌, append-nil,
  append_assoc, ltb, leb, ◌==◌, if◌then◌else◌, length, has_prefix, codes, All, Bytes, span_until,
  str_eq, str_eq_iff, ne_of_str_eq, Option, none, some, ◌≡◌, ◌≢◌, refl, sym, ◌∙◌, ap, arith, inl,
  inr, Bool-cases,
}
use epistemic_framework.Common.Sorting.{filter}
use epistemic_framework.Bridge.Mentions.{
  Mention, is_handle_char, is_email_prefix_char, is_after_email, is_known, starts_with_bang,
  handle_run, is_too_long, mention_here, all_mentions, add_new,
}
use epistemic_framework.Bridge.Mentions.Handles.{IsHandleByte, IsDistinct, IsHandle}

-- A class of bytes is a list of ranges.
abbrev pub in_class : List (ℕ × ℕ) → ℕ → Bool
in_class [] c = false
in_class ((first, last) ∷ class) c = (leb first c && leb c last) || in_class class c

abbrev pub handle_class : List (ℕ × ℕ)
handle_class = (b'a', b'z') ∷ (b'A', b'Z') ∷ (b'0', b'9') ∷ (b'_', b'_') ∷ (b'-', b'-') ∷ []

-- What may stand in front of the @ of an address.
abbrev pub address_class : List (ℕ × ℕ)
address_class = (b'.', b'.') ∷ (b'+', b'+') ∷ handle_class

-- The longest start in a class, and what is behind it.
abbrev pub leading : List (ℕ × ℕ) → Bytes → Bytes
leading class [] = []
leading class (c ∷ s) = if in_class class c then c ∷ leading class s else []

abbrev pub behind : List (ℕ × ℕ) → Bytes → Bytes
behind class [] = []
behind class (c ∷ s) = if in_class class c then behind class s else c ∷ s

-- Whether the byte in front, if there is one, leaves an @ free.
abbrev pub is_free : Option ℕ → Bool
is_free none = true
is_free (some c) = not (in_class address_class c)

-- The mentions of all places: a free @ with 1 to 63 bytes of the handle class behind it.
abbrev pub mentions_in : Option ℕ → Bytes → List Mention
mentions_in before [] = []
mentions_in before (c ∷ s) =
    let later = mentions_in (some c) s in
    let handle = leading handle_class s in
    if c == b'@' && is_free before && ltb 0 (length handle) && ltb (length handle) 64
    then record { handle = handle; interrupt = has_prefix (codes "!") (behind handle_class s) }
      ∷ later
    else later

-- The first mention of each handle.
abbrev pub first_of_each : List Mention → List Mention
first_of_each [] = []
first_of_each (m ∷ ms) = m ∷ filter (λ x. not (str_eq m.handle x.handle)) (first_of_each ms)

abbrev pub HasOtherHandle : Mention → Mention → Type 0
HasOtherHandle m x = x.handle ≢ m.handle

abbrev pub AreApart : List Mention → Type 0
AreApart [] = Unit
AreApart (m ∷ ms) = All (HasOtherHandle m) ms × AreApart ms

abbrev pub InHandleClass : ℕ → Type 0
InHandleClass c = in_class handle_class c ≡ true

handle_char-class : (c : ℕ) → is_handle_char c ≡ in_class handle_class c
unfolding is_handle_char
handle_char-class c = ground arith

prefix_char-class : (c : ℕ) → is_email_prefix_char c ≡ in_class address_class c
unfolding is_email_prefix_char
prefix_char-class c = ground arith

handle_run-leading : (s : Bytes) → handle_run s ≡ (leading handle_class s, behind handle_class s)
unfolding span_until
handle_run-leading [] = refl
handle_run-leading (c ∷ s) = elim (Bool-cases (is_handle_char c)) [
  | inl inside ↦
      let same = sym (handle_char-class c) ∙ inside in rw (inside, same, handle_run-leading s) refl
  | inr outside ↦ let same = sym (handle_char-class c) ∙ outside in rw (outside, same) refl
]

twice : (b : Bool) → b ≡ not (not b)
twice true = refl
twice false = refl

is_after_email-free : (before : Option ℕ) → is_after_email before ≡ not (is_free before)
is_after_email-free none = refl
is_after_email-free (some c) = prefix_char-class c ∙ twice (in_class address_class c)

bang : (s : Bytes) → starts_with_bang s ≡ has_prefix (codes "!") s
unfolding has_prefix
bang [] = refl
bang (c ∷ s) = ground arith

-- The places agree.
pub all_mentions-in : (before : Option ℕ) (s : Bytes) → all_mentions before s ≡ mentions_in before s
unfolding all_mentions mention_here is_too_long
all_mentions-in before [] = refl
all_mentions-in before (c ∷ s) =
    let run = handle_run-leading s in
    let free = is_after_email-free before in
    let start = bang (behind handle_class s) in
    let later = all_mentions-in (some c) s in
    let handle = leading handle_class s in
    elim (Bool-cases
      (c == b'@' && is_free before && ltb 0 (length handle) && ltb (length handle) 64)) [
        | inl here ↦
            let here' : (c == b'@'
                  && not (is_after_email before)
                  && not (length handle == 0 || leb 64 (length handle)))
                ≡ true =
              ground arith in
            rw (here, run, here', start, later) refl
        | inr not_here ↦
            let not_here' : (c == b'@'
                  && not (is_after_email before)
                  && not (length handle == 0 || leb 64 (length handle)))
                ≡ false =
              ground arith in
            rw (not_here, run, not_here', later) refl
      ]

-- None of the handles found so far.
abbrev is_new : List Mention → Mention → Bool
is_new found x = not (is_known x.handle found)

abbrev differs_from : Mention → Mention → Bool
differs_from m x = not (str_eq m.handle x.handle)

filter_twice :
    (f g h : Mention → Bool)
    → ((x : Mention) → (g x && f x) ≡ h x)
    → (xs : List Mention) → filter f (filter g xs) ≡ filter h xs
filter_twice f g h both [] = refl
filter_twice f g h both (x ∷ xs) =
    let rest = filter_twice f g h both xs in
    elim (Bool-cases (g x)) [
      | inr out ↦ let out' : h x ≡ false = sym (both x) ∙ rw out refl in rw (out, out', rest) refl
      | inl kept ↦
          let same : f x ≡ h x = rw (sym (both x), kept) refl in
          elim (Bool-cases (h x)) [
            | inl taken ↦ let taken' = same ∙ taken in rw (kept, taken, taken', rest) refl
            | inr out ↦ let out' = same ∙ out in rw (kept, out, out', rest) refl
          ]
    ]

known_behind :
    (handle : Bytes) (found : List Mention) (m : Mention)
    → is_known handle (found ++ (m ∷ [])) ≡ (is_known handle found || str_eq m.handle handle)
known_behind handle [] m = ground arith
known_behind handle (x ∷ found) m = ground (arith, known_behind handle found m)

not_old :
    (found : List Mention) (m x : Mention)
    → is_known m.handle found ≡ true
    → (differs_from m x && is_new found x) ≡ is_new found x
not_old found m x known = elim (Bool-cases (str_eq m.handle x.handle)) [
  | inr other ↦ rw other refl
  | inl same ↦
      let old : is_known x.handle found ≡ true =
        ap (λ handle. is_known handle found) (sym ((str_eq_iff m.handle x.handle).0 same))
        ∙ known in
      rw (same, old) refl
]

pub add_new-first :
    (found ms : List Mention) → add_new found ms ≡ found ++ filter (is_new found) (first_of_each ms)
unfolding add_new
add_new-first found [] = sym (append-nil found)
add_new-first found (m ∷ ms) = elim (Bool-cases (is_known m.handle found)) [
  | inl known ↦
      rw
        (
          known,
          filter_twice (is_new found) (differs_from m) (is_new found) (λ x. not_old found m x known)
              (first_of_each ms),
        )
        (add_new-first found ms)
  | inr fresh ↦
      let both : (x : Mention)
          → (differs_from m x && is_new found x) ≡ is_new (found ++ (m ∷ [])) x =
        λ x. ground (arith, known_behind x.handle found m) in
      rw
        (
          fresh,
          filter_twice (is_new found) (differs_from m) (is_new (found ++ (m ∷ []))) both
              (first_of_each ms),
        )
        (add_new-first (found ++ (m ∷ [])) ms ∙ append_assoc found (m ∷ []) _)
]

filter_all : (xs : List Mention) → filter (is_new []) xs ≡ xs
filter_all [] = refl
filter_all (x ∷ xs) = ap (◌∷◌ x) (filter_all xs)

-- What the loop adds to an empty array are the first mentions.
pub add_new-mentions :
    (s : Bytes) → add_new [] (all_mentions none s) ≡ first_of_each (mentions_in none s)
add_new-mentions s =
    rw (all_mentions-in none s)
      (add_new-first [] (mentions_in none s) ∙ filter_all (first_of_each (mentions_in none s)))

unknown-All :
    (m : Mention) (ms : List Mention) → is_known m.handle ms ≡ false → All (HasOtherHandle m) ms
unknown-All m [] h = tt
unknown-All m (x ∷ ms) h =
    (ne_of_str_eq x.handle m.handle (ground arith), unknown-All m ms (ground arith))

pub distinct-AreApart : (ms : List Mention) → IsDistinct ms → AreApart ms
distinct-AreApart [] h = tt
distinct-AreApart (m ∷ ms) (first, h) = (unknown-All m ms first, distinct-AreApart ms h)

handle_byte-class : (c : ℕ) → IsHandleByte c → InHandleClass c
handle_byte-class c h = sym (handle_char-class c) ∙ ground arith

abbrev pub IsMentionable : Mention → Type 0
IsMentionable m = (0 < length m.handle) × (length m.handle < 64) × All InHandleClass m.handle

pub handle-IsMentionable : (m : Mention) → IsHandle m → IsMentionable m
handle-IsMentionable m (some_bytes, few, bytes) =
    (some_bytes, few, All-map IsHandleByte InHandleClass handle_byte-class m.handle bytes)
