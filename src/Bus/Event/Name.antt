-- ===== src/Bus/Event/Name.antt =====
-- The file name of an event: what `bus_publish` gives it, and what the scans read from it.
use epistemic_framework.Common.{
  ℕ, ◌-◌, ◌^◌, ◌≤◌, ◌<◌, true, false, ◌||◌, [], ◌∷◌, ◌++◌, append-nil, append_assoc, leb, ◌==◌,
  length, length-append, take, take_whole, drop-length-append, All-map, Bytes, codes, str_eq_refl,
  span_until, span_until_at, none, some, ◌≡◌, refl, sym, ◌∙◌, ap, arith,
}
use epistemic_framework.Common.Int.{pos, llong_max}
use epistemic_framework.Common.Decimal.{print_ℕ, strtoll, not_digit}
use epistemic_framework.Common.Decimal.RoundTrip.{IsDigits, print_ℕ-IsDigits, strtoll-print_ℕ}
use epistemic_framework.Common.Decimal.Length.{length-print_ℕ_pos, length-print_ℕ_pow}
use epistemic_framework.Bus.Event.{
  bus_max_handle, bus_max_filename, event_name, is_dash, all_digits, timestamp_before,
  parse_event_filename_timestamp, is_event_name,
}

digit_no_dash : (c : ℕ) → not_digit c ≡ false → is_dash c ≡ false
digit_no_dash c h = ground arith

digits_all : (s : Bytes) → IsDigits s → all_digits s ≡ true
unfolding all_digits
digits_all [] h = refl
digits_all (c ∷ s) (hc, h) = rw (digits_all s h) (ground arith)

parse-digits :
    (now : ℕ) (rest : Bytes)
    → now ≤ llong_max
    → parse_event_filename_timestamp (print_ℕ now ++ (b'-' ∷ rest)) ≡ some (pos now)
parse-digits now rest fits =
    let small : now < 10 ^ 19 = omega arith in
    let len = length-print_ℕ_pow 19 now (omega arith) small in
    let span : span_until is_dash (print_ℕ now ++ (b'-' ∷ rest)) ≡ (print_ℕ now, b'-' ∷ rest) =
      span_until_at is_dash (print_ℕ now) b'-' rest
        (All-map _ _ digit_no_dash (print_ℕ now) (print_ℕ-IsDigits now)) refl in
    let size : (length (print_ℕ now) == 0 || leb 32 (length (print_ℕ now))) ≡ false =
      ground (arith, length-print_ℕ_pos now) in
    let digits = digits_all (print_ℕ now) (print_ℕ-IsDigits now) in
    let read : strtoll (print_ℕ now ++ [])
        ≡ record { value = pos now; converted = true; rest = []; out_of_range = false } =
      strtoll-print_ℕ now [] fits tt in
    let read' : strtoll (print_ℕ now)
        ≡ record { value = pos now; converted = true; rest = []; out_of_range = false } =
      rw append-nil at read in
    let at : timestamp_before (print_ℕ now, b'-' ∷ rest) ≡ some (pos now) =
      rw (size, digits, read') in
    unfold parse_event_filename_timestamp in ap timestamp_before span ∙ at

-- A file that is being written is never taken for an event: its name does not parse.
pub parse-temporary : (rest : Bytes) → parse_event_filename_timestamp (codes ".tmp-" ++ rest) ≡ none
unfolding parse_event_filename_timestamp span_until all_digits
parse-temporary rest = refl

is_event_name-append : (s : Bytes) → 1 ≤ length s → is_event_name (s ++ codes ".event") ≡ true
is_event_name-append s filled =
    let n = length-append s (codes ".event") in
    let long : leb 7 (length (s ++ codes ".event")) ≡ true = ground arith in
    let at : length (s ++ codes ".event") - 6 ≡ length s = omega arith in
    unfold is_event_name in
    rw long (rw at (rw (drop-length-append s (codes ".event")) (str_eq_refl (codes ".event"))))

abbrev stem : ℕ → Bytes → Bytes → ℕ → Bytes
stem now source type pid =
    print_ℕ now ++ (b'-' ∷ (source ++ (b'-' ∷ (type ++ (b'-' ∷ print_ℕ pid)))))

stem-append :
    (now : ℕ) (source type : Bytes) (pid : ℕ)
    → event_name now source type pid ≡ stem now source type pid ++ codes ".event"
stem-append now source type pid =
    let e : source ++ (b'-' ∷ (type ++ (b'-' ∷ (print_ℕ pid ++ codes ".event"))))
        ≡ (source ++ (b'-' ∷ (type ++ (b'-' ∷ print_ℕ pid)))) ++ codes ".event" =
      ap (λ t. source ++ (b'-' ∷ t)) (sym (append_assoc type (b'-' ∷ print_ℕ pid) (codes ".event")))
      ∙ sym (append_assoc source (b'-' ∷ (type ++ (b'-' ∷ print_ℕ pid))) (codes ".event")) in
    ap (λ t. print_ℕ now ++ (b'-' ∷ t)) e
    ∙ sym (
        append_assoc (print_ℕ now) (b'-' ∷ (source ++ (b'-' ∷ (type ++ (b'-' ∷ print_ℕ pid)))))
          (codes ".event"))

length-event_name :
    (now : ℕ) (source type : Bytes) (pid : ℕ)
    → now ≤ llong_max
    → pid < 10 ^ 10
    → length source < bus_max_handle
    → length type < bus_max_handle
    → length (event_name now source type pid) ≤ 511
length-event_name now source type pid fits small hs ht =
    let now_small : now < 10 ^ 19 = omega arith in
    let end = print_ℕ pid ++ codes ".event" in
    omega (
      arith,
      length-print_ℕ_pow 19 now (omega arith) now_small,
      length-print_ℕ_pow 10 pid (omega arith) small,
      length-append (print_ℕ pid) (codes ".event"),
      length-append type (b'-' ∷ end),
      length-append source (b'-' ∷ (type ++ (b'-' ∷ end))),
      length-append (print_ℕ now) (b'-' ∷ (source ++ (b'-' ∷ (type ++ (b'-' ∷ end))))),
    )

-- The name fits its buffer, is that of an event, and gives the time back.
pub event_name_lem :
    (now : ℕ) (source type : Bytes) (pid : ℕ)
    → now ≤ llong_max
    → pid < 10 ^ 10
    → length source < bus_max_handle
    → length type < bus_max_handle
    → (take (bus_max_filename - 1) (event_name now source type pid)
        ≡ event_name now source type pid)
      × (is_event_name (event_name now source type pid) ≡ true)
      × (parse_event_filename_timestamp (event_name now source type pid) ≡ some (pos now))
event_name_lem now source type pid fits small hs ht =
    let stem_some : 1 ≤ length (stem now source type pid) = omega (
      arith,
      length-append (print_ℕ now) (b'-' ∷ (source ++ (b'-' ∷ (type ++ (b'-' ∷ print_ℕ pid))))),
    ) in
    (
      take_whole 511 (event_name now source type pid)
          (length-event_name now source type pid fits small hs ht),
      ap is_event_name (stem-append now source type pid)
          ∙ is_event_name-append (stem now source type pid) stem_some,
      parse-digits now (source ++ (b'-' ∷ (type ++ (b'-' ∷ (print_ℕ pid ++ codes ".event"))))) fits,
    )
