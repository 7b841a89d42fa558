-- ===== src/Bridge/Mentions.antt =====
-- `bus_extract_mentions`: the @handles of a message.
pub mod Handles
pub mod Reference
pub mod First
use epistemic_framework.Common.{
  ℕ, zero, suc, ◌+◌, ◌-◌, ◌≤◌, ◌<◌, Bool, true, false, not, ◌&&◌, ◌||◌, List, [], ◌∷◌, ◌++◌,
  append-nil, append_assoc, ltb, leb, ◌==◌, if◌then◌else◌, length, length-append, take,
  take-length-append, All, Bytes, codes, span_until, is_alnum, str_eq, Option, none, some, ◌≡◌,
  refl, sym, ◌∙◌, ap, arith, inl, inr, Bool-cases,
}
use epistemic_framework.Common.Outcome.{Outcome, ok, ◌>>◌, assert}

abbrev pub max_mention_handle_len : ℕ
max_mention_handle_len = 64

-- A handle, and whether the mention interrupts.
pub record Mention : Type 0 where
  pub handle : Bytes
  pub interrupt : Bool

unfoldable pub is_handle_char : ℕ → Bool
is_handle_char c = is_alnum c || c == b'_' || c == b'-'

unfoldable pub is_email_prefix_char : ℕ → Bool
is_email_prefix_char c = is_alnum c || c == b'.' || c == b'_' || c == b'-' || c == b'+'

-- The byte in front, if there is one.
abbrev pub is_after_email : Option ℕ → Bool
is_after_email none = false
is_after_email (some c) = is_email_prefix_char c

abbrev pub is_known : Bytes → List Mention → Bool
is_known handle [] = false
is_known handle (m ∷ ms) = str_eq m.handle handle || is_known handle ms

abbrev pub starts_with_bang : Bytes → Bool
starts_with_bang [] = false
starts_with_bang (c ∷ s) = c == b'!'

-- The handle that stands behind an @, and what follows it.
abbrev pub handle_run : Bytes → Bytes × Bytes
handle_run s = span_until (λ c. not (is_handle_char c)) s

unfoldable pub is_too_long : Bytes → Bool
is_too_long handle = length handle == 0 || leb max_mention_handle_len (length handle)

-- How many bytes behind `c` are skipped, and what is found then.
unfoldable pub look_at : Option ℕ → ℕ → Bytes → List Mention → ℕ × List Mention
look_at prev c s found =
    let (handle, rest) = handle_run s in
    if not (c == b'@') || is_after_email prev
    then (0, found)
    else if is_too_long handle || is_known handle found
    then (length handle, found)
    else (
      length handle,
      found ++ (record { handle = handle; interrupt = starts_with_bang rest } ∷ []),
    )

-- The loop: `skip` bytes are left of the handle that was taken last.
unfoldable pub scan_mentions : ℕ → ℕ → Option ℕ → Bytes → List Mention → List Mention
scan_mentions max skip prev [] found = found
scan_mentions max (suc skip) prev (c ∷ s) found = scan_mentions max skip (some c) s found
scan_mentions max zero prev (c ∷ s) found =
    let (skip, found') = look_at prev c s found in
    let later = scan_mentions max skip (some c) s found' in
    if leb max (length found) then found else later

unfoldable pub bus_extract_mentions : ℕ → Bytes → Outcome (List Mention)
bus_extract_mentions max message =
    let found = scan_mentions max 0 none message [] in
    assert (ltb 0 max) >> assert (leb (length found) max) >> ok found

-- All mentions, place by place.
unfoldable pub mention_here : Option ℕ → ℕ → Bytes → List Mention
mention_here prev c s =
    let (handle, rest) = handle_run s in
    if c == b'@' && not (is_after_email prev) && not (is_too_long handle)
    then record { handle = handle; interrupt = starts_with_bang rest } ∷ []
    else []

unfoldable pub all_mentions : Option ℕ → Bytes → List Mention
all_mentions prev [] = []
all_mentions prev (c ∷ s) = mention_here prev c s ++ all_mentions (some c) s

-- The first mention of each handle.
unfoldable pub add_new : List Mention → List Mention → List Mention
add_new found [] = found
add_new found (m ∷ ms) = add_new (if is_known m.handle found then found else found ++ (m ∷ [])) ms

sample :
    bus_extract_mentions 16 (codes "@ann, a@b.de @bob! (@ann!)")
    ≡ ok (
        record { handle = codes "ann"; interrupt = false }
        ∷ record { handle = codes "bob"; interrupt = true }
        ∷ [])
unfolding bus_extract_mentions scan_mentions look_at is_too_long is_handle_char is_email_prefix_char
    span_until str_eq
sample = refl
