-- ===== src/ChatCli/Search.antt =====
-- `strcasestr_portable` and the loop of `cmd_search`.
pub mod Finds
use epistemic_framework.Common.{
  ℕ, zero, suc, ◌+◌, Bool, true, false, not, ◌&&◌, ◌||◌, List, [], ◌∷◌, ◌++◌, map, leb, ◌==◌,
  if◌then◌else◌, Bytes, codes, str_eq, str_eq_iff, Option, none, some, ◌≡◌, ◌↔◌, ◌⊎◌, inl, inr,
  Bool-cases, refl, sym, ◌∙◌, ap, arith,
}
use epistemic_framework.ChatFile.Message.{ChatMessage}

-- `tolower` in the C locale.
unfoldable pub to_lower : ℕ → ℕ
to_lower c = if leb b'A' c && leb c b'Z' then c + 32 else c

-- `strncasecmp(s, prefix, strlen(prefix)) == 0`
unfoldable pub has_prefix_ci : Bytes → Bytes → Bool
has_prefix_ci [] s = true
has_prefix_ci (p ∷ ps) [] = false
has_prefix_ci (p ∷ ps) (c ∷ s) = to_lower p == to_lower c && has_prefix_ci ps s

unfoldable pub find_ci : Bytes → Bytes → Option Bytes
find_ci needle [] = none
find_ci needle (c ∷ s) =
    let later = find_ci needle s in if has_prefix_ci needle (c ∷ s) then some (c ∷ s) else later

-- The text from the first occurrence on.
unfoldable pub strcasestr_portable : Bytes → Bytes → Option Bytes
strcasestr_portable haystack [] = some haystack
strcasestr_portable haystack (n ∷ needle) = find_ci (n ∷ needle) haystack

abbrev pub is_found : Option Bytes → Bool
is_found none = false
is_found (some s) = true

abbrev pub passes : Option Bytes → ChatMessage → Bool
passes none m = true
passes (some handle) m = str_eq m.handle handle

unfoldable pub search_from : Bytes → Option Bytes → ℕ → List ChatMessage → List (ℕ × ChatMessage)
search_from pattern filter i [] = []
search_from pattern filter i (m ∷ ms) =
    let later = search_from pattern filter (i + 1) ms in
    if not (passes filter m)
    then later
    else if is_found (strcasestr_portable m.content pattern)
    then (i, m) ∷ later
    else later

-- The pattern stands in the text, whatever the case of the letters is.
abbrev pub Contains : Bytes → Bytes → Type 0
Contains text pattern =
    (before : Bytes) × (same : Bytes) × (behind : Bytes) × (text ≡ before ++ (same ++ behind))
    × (map to_lower same ≡ map to_lower pattern)

abbrev pub Passes : Option Bytes → ChatMessage → Type 0
Passes none m = Unit
Passes (some handle) m = m.handle ≡ handle

-- The message with number `i`.
abbrev pub At : ℕ → ChatMessage → List ChatMessage → Type 0
At i m [] = ⊥
At zero m (x ∷ xs) = m ≡ x
At (suc i) m (x ∷ xs) = At i m xs

-- It is listed with the number `i`.
abbrev pub Listed : ℕ → ChatMessage → List (ℕ × ChatMessage) → Type 0
Listed i m [] = ⊥
Listed i m ((j, x) ∷ xs) = ((i ≡ j) × (m ≡ x)) ⊎ Listed i m xs
