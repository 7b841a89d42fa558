-- ===== src/Bridge/Mentions/First.antt =====
-- `bus_extract_mentions` finds the first mention of each handle.
use epistemic_framework.Common.{
  All-take, All-map, ℕ, zero, suc, ◌≤◌, ◌<◌, Bool, true, false, not, ◌&&◌, ◌||◌, List, [], ◌∷◌,
  ◌++◌, append-nil, append_assoc, ltb, leb, ◌==◌, if◌then◌else◌, length, length-append, length-take,
  take, take_whole, take-length-append, All, Bytes, span_until-append, span_until-All, Option, none,
  some, ◌≡◌, refl, sym, ◌∙◌, ap, arith, inl, inr, Bool-cases,
}
use epistemic_framework.Common.Outcome.{ok}
use epistemic_framework.Bridge.Mentions.{
  Mention, is_handle_char, is_after_email, is_known, handle_run, is_too_long, look_at,
  scan_mentions, bus_extract_mentions, mention_here, all_mentions, add_new,
}
use epistemic_framework.Bridge.Mentions.Handles.{
  IsHandleByte, mention_of, IsHandle, add_new-IsDistinct, add_new-All, take-IsDistinct,
  all_mentions-IsHandle,
}
use epistemic_framework.Bridge.Mentions.Reference.{
  mentions_in, first_of_each, AreApart, IsMentionable, add_new-mentions, distinct-AreApart,
  handle-IsMentionable,
}

not_at : (c : ℕ) → IsHandleByte c → (c == b'@') ≡ false
unfolding is_handle_char
not_at c h = ground arith

handle_run-All : (s : Bytes) → All IsHandleByte (take (length (handle_run s).0) s)
handle_run-All s =
    let stop : ℕ → Bool = λ c. not (is_handle_char c) in
    let whole = span_until-append stop s in
    let run : take (length (handle_run s).0) s ≡ (handle_run s).0 =
      ap (take (length (handle_run s).0)) (sym whole)
      ∙ take-length-append (handle_run s).0 (handle_run s).1 in
    rw run (span_until-All stop s)

-- Adding keeps what was found in front.
add_new-append :
    (found ms : List Mention) → (more : List Mention) × (add_new found ms ≡ found ++ more)
unfolding add_new
add_new-append found [] = ([], sym (append-nil found))
add_new-append found (m ∷ ms) = elim (Bool-cases (is_known m.handle found)) [
  | inl known ↦ let (more, e) = add_new-append found ms in (more, rw known e)
  | inr fresh ↦
      let (more, e) = add_new-append (found ++ (m ∷ [])) ms in
      (m ∷ more, rw fresh (e ∙ append_assoc found (m ∷ []) more))
]

-- One look goes on with what the place adds, behind bytes of a handle.
abbrev IsLook : Option ℕ → ℕ → Bytes → List Mention → ℕ × List Mention → Type 0
IsLook prev c s found (skip, found') =
    All IsHandleByte (take skip s)
    × ((ms : List Mention) → add_new found' ms ≡ add_new found (mention_here prev c s ++ ms))
    × (length found' ≤ suc (length found))

add_here :
    (b : Bool) (m : Mention) (found ms : List Mention)
    → is_known m.handle found ≡ b
    → add_new found (m ∷ ms) ≡ add_new (if b then found else found ++ (m ∷ [])) ms
unfolding add_new
add_here b m found ms e = rw e refl

look_at-IsLook :
    (prev : Option ℕ) (c : ℕ) (s : Bytes) (found : List Mention)
    → IsLook prev c s found (look_at prev c s found)
look_at-IsLook prev c s found = elim (Bool-cases (not (c == b'@') || is_after_email prev)) [
  | inl none_here ↦
      let nothing : (c == b'@' && not (is_after_email prev) && not (is_too_long (handle_run s).0))
          ≡ false =
        ground arith in
      let here : mention_here prev c s ≡ [] = unfold mention_here in rw nothing refl in
      let look : look_at prev c s found ≡ (0, found) = unfold look_at in rw none_here refl in
      rw (look, here) (tt, (λ ms. refl), omega arith)
  | inr at_sign ↦ elim (Bool-cases (is_too_long (handle_run s).0)) [
    | inl long ↦
        let nothing : (c == b'@' && not (is_after_email prev) && not (is_too_long (handle_run s).0))
            ≡ false =
          ground arith in
        let here : mention_here prev c s ≡ [] = unfold mention_here in rw nothing refl in
        let look : look_at prev c s found ≡ (length (handle_run s).0, found) =
          unfold look_at in rw (at_sign, long) refl in
        rw (look, here) (handle_run-All s, (λ ms. refl), omega arith)
    | inr fits ↦
        let something : (c == b'@'
              && not (is_after_email prev)
              && not (is_too_long (handle_run s).0))
            ≡ true =
          ground arith in
        let here : mention_here prev c s ≡ mention_of s ∷ [] =
          unfold mention_here mention_of in rw something refl in
        elim (Bool-cases (is_known (handle_run s).0 found)) [
          | inl known ↦
              let look : look_at prev c s found ≡ (length (handle_run s).0, found) =
                unfold look_at in rw (at_sign, fits, known) refl in
              rw (look, here)
                (
                  handle_run-All s,
                  (λ ms. sym (add_here true (mention_of s) found ms (unfold mention_of in known))),
                  omega arith,
                )
          | inr fresh ↦
              let look : look_at prev c s found
                  ≡ (length (handle_run s).0, found ++ (mention_of s ∷ [])) =
                unfold look_at mention_of in rw (at_sign, fits, fresh) refl in
              rw (look, here)
                (
                  handle_run-All s,
                  (λ ms. sym (add_here false (mention_of s) found ms (unfold mention_of in fresh))),
                  omega (arith, length-append found (mention_of s ∷ [])),
                )
        ]
  ]
]

-- What is found by then is full: nothing is added that counts.
take-add_new :
    (max : ℕ) (found ms : List Mention) → length found ≡ max → take max (add_new found ms) ≡ found
take-add_new max found ms full =
    let (more, e) = add_new-append found ms in rw (e, sym full) (take-length-append found more)

handle_byte_quiet :
    (prev : Option ℕ) (c : ℕ) (s : Bytes) → IsHandleByte c → mention_here prev c s ≡ []
unfolding mention_here
handle_byte_quiet prev c s h = rw (not_at c h) refl

scan_mentions-add_new :
    (max skip : ℕ) (prev : Option ℕ) (s : Bytes) (found : List Mention)
    → length found ≤ max
    → All IsHandleByte (take skip s)
    → scan_mentions max skip prev s found ≡ take max (add_new found (all_mentions prev s))
unfolding scan_mentions all_mentions add_new
scan_mentions-add_new max zero prev [] found le h = sym (take_whole max found le)
scan_mentions-add_new max (suc skip) prev [] found le h = sym (take_whole max found le)
scan_mentions-add_new max (suc skip) prev (c ∷ s) found le (hc, h) =
    rw (handle_byte_quiet prev c s hc) (scan_mentions-add_new max skip (some c) s found le h)
scan_mentions-add_new max zero prev (c ∷ s) found le h =
    elim (Bool-cases (leb max (length found))) [
      | inl full ↦ rw full (
          sym (
            take-add_new max found (mention_here prev c s ++ all_mentions (some c) s)
              (ground arith)))
      | inr room ↦
          let (run, adds, size) = look_at-IsLook prev c s found in
          rw room (
            scan_mentions-add_new max (look_at prev c s found).0 (some c) s
              (look_at prev c s found).1 (ground arith) run
            ∙ ap (take max) (adds (all_mentions (some c) s)))
    ]

-- For an array with at least one slot: what is found are the first mentions of the handles, as many as the array holds. A mention
-- is a place with an @ that is the first byte or stands behind a byte other than a letter, a digit or one of `.+_-`, and with
-- 1 to 63 letters, digits, `_` or `-` behind it, which are all that stand there: they are its handle, and it interrupts
-- if `!` follows. No handle is found twice, and no assertion fires.
pub bus_extract_mentions_first :
    (max : ℕ) (message : Bytes)
    → 0 < max
    → (ms : List Mention) × (bus_extract_mentions max message ≡ ok ms)
      × (ms ≡ take max (first_of_each (mentions_in none message)))
      × (length ms ≤ max)
      × AreApart ms
      × All IsMentionable ms
bus_extract_mentions_first max message some_room =
    let all = add_new [] (all_mentions none message) in
    let found = scan_mentions-add_new max 0 none message [] (omega arith) tt in
    let size : length (take max all) ≤ max = omega (arith, length-take max all) in
    let (e₁, e₂) : (ltb 0 max ≡ true) × (leb (length (take max all)) max ≡ true) =
      (ground arith, ground arith) in
    (
      take max all,
      (unfold bus_extract_mentions in rw (found, e₁, e₂) refl),
      ap (take max) (add_new-mentions message),
      size,
      distinct-AreApart (take max all)
          (take-IsDistinct max all (add_new-IsDistinct [] (all_mentions none message) tt)),
      All-map IsHandle IsMentionable handle-IsMentionable (take max all) (
          All-take IsHandle max all (
            add_new-All IsHandle [] (all_mentions none message) tt
              (all_mentions-IsHandle none message))),
    )
