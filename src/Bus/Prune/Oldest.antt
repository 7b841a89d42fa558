-- ===== src/Bus/Prune/Oldest.antt =====
-- Which events a prune deletes.
use epistemic_framework.Common.{
  ℕ, zero, suc, ◌+◌, ◌-◌, ◌≤◌, ◌<◌, true, Bool, ◌&&◌, Option, none, some, List, [], ◌∷◌, ◌++◌, ltb,
  leb, All, All-map, ◌≡◌, refl, sym, ◌∙◌, ap, arith, inl, inr, Bool-cases,
}
use epistemic_framework.Common.Int.{ℤ, leb_ℤ}
use epistemic_framework.Common.Outcome.{ok, error}
use epistemic_framework.Common.Sorting.{
  Reordered, none_left, keep, swap, both, Reordered_refl, IsSorted, AtMost, at_most, compared_times,
  says_first, IsOrder, Sorts, leb_ℤ_total, leb_ℤ_trans,
}
use epistemic_framework.Bus.Event.{parse_event_filename_timestamp, is_event_name}
use epistemic_framework.Bus.Prune.{
  bus_max_events, Processed, PruneEntry, make_prune_entry, prune_entry_of, collect_entry,
  collect_entries, total_size, prune_loop, prune_compare, prune_processed, absent, unreadable,
  opened, bus_prune,
}

-- Every entry is at most as new as those behind it.
abbrev pub IsOldestFirst : List PruneEntry → Type 0
IsOldestFirst [] = Unit {0}
IsOldestFirst (e ∷ es) = All (λ l. AtMost e.timestamp_us l.timestamp_us) es × IsOldestFirst es

abbrev is_older : PruneEntry → PruneEntry → Bool
is_older a b = leb_ℤ a.timestamp_us b.timestamp_us

first_is_older : (a b : PruneEntry) → says_first prune_compare a b ≡ is_older a b
unfolding prune_compare
first_is_older a b = compared_times a.timestamp_us b.timestamp_us

prune_compare-IsOrder : IsOrder prune_compare
prune_compare-IsOrder = (
  λ a b h.
      first_is_older b a ∙ leb_ℤ_total a.timestamp_us b.timestamp_us (sym (first_is_older a b) ∙ h),
  λ a b c h k.
      first_is_older a c
      ∙ leb_ℤ_trans a.timestamp_us b.timestamp_us c.timestamp_us (sym (first_is_older a b) ∙ h)
          (sym (first_is_older b c) ∙ k),
)

sorted-IsOldestFirst :
    (es : List PruneEntry) → IsSorted (says_first prune_compare) es → IsOldestFirst es
sorted-IsOldestFirst [] h = tt
sorted-IsOldestFirst (e ∷ es) (he, h) = (
  All-map _ (λ l. AtMost e.timestamp_us l.timestamp_us)
      (λ x k. at_most e.timestamp_us x.timestamp_us (sym (first_is_older e x) ∙ k)) es he,
  sorted-IsOldestFirst es h,
)

abbrev pub AllUnlink : List PruneEntry → Type 0
AllUnlink = All (λ e. e.unlinks ≡ true)

-- The last deletion was needed: without it the limit would not be met.
abbrev pub IsNeeded : ℕ → List PruneEntry → List PruneEntry → Type 0
IsNeeded max_bytes [] left = Unit {0}
IsNeeded max_bytes (e ∷ []) left = max_bytes < e.size + total_size left
IsNeeded max_bytes (e ∷ f ∷ gone) left = IsNeeded max_bytes (f ∷ gone) left

total_size-Reordered : {xs ys : List PruneEntry} → Reordered xs ys → total_size xs ≡ total_size ys
total_size-Reordered none_left = refl
total_size-Reordered (keep {e} r) = ap (λ n. e.size + n) (total_size-Reordered r)
total_size-Reordered (swap {e} {f} {xs}) = omega arith
total_size-Reordered (both r r') = total_size-Reordered r ∙ total_size-Reordered r'

AllUnlink-Reordered : {xs ys : List PruneEntry} → Reordered xs ys → AllUnlink xs → AllUnlink ys
AllUnlink-Reordered none_left h = h
AllUnlink-Reordered (keep r) (he, h) = (he, AllUnlink-Reordered r h)
AllUnlink-Reordered swap (he, (hf, h)) = (hf, (he, h))
AllUnlink-Reordered (both r r') h = AllUnlink-Reordered r' (AllUnlink-Reordered r h)

-- What the loop does with entries that can all be deleted.
abbrev Pruned : ℕ → List PruneEntry → List PruneEntry × List PruneEntry → Type 0
Pruned max_bytes es (gone, left) =
    (gone ++ left ≡ es) × (total_size left ≤ max_bytes) × IsNeeded max_bytes gone left

more-IsNeeded :
    (max_bytes : ℕ) (e : PruneEntry) (gone left es : List PruneEntry)
    → max_bytes < total_size (e ∷ es)
    → gone ++ left ≡ es
    → IsNeeded max_bytes gone left
    → IsNeeded max_bytes (e ∷ gone) left
more-IsNeeded max_bytes e [] left es over split h = omega (arith, over, ap total_size split)
more-IsNeeded max_bytes e (f ∷ gone) left es over split h = h

prune_loop-Pruned :
    (max_bytes total : ℕ) (es : List PruneEntry)
    → AllUnlink es
    → total ≡ total_size es
    → Pruned max_bytes es (prune_loop max_bytes total es)
unfolding prune_loop
prune_loop-Pruned max_bytes total [] h e = (refl, omega arith, tt)
prune_loop-Pruned max_bytes total (x ∷ es) (hx, h) e = elim (Bool-cases (ltb max_bytes total)) [
  | inl over ↦
      let next = prune_loop max_bytes (total - x.size) es in
      let (split, fits, needed) = prune_loop-Pruned max_bytes (total - x.size) es h (omega arith) in
      let above : max_bytes < total_size (x ∷ es) = ground arith in
      simp (over, hx)
        (ap (λ r. x ∷ r) split, fits, more-IsNeeded max_bytes x next.0 next.1 es above split needed)
  | inr under ↦ rw under (refl, ground arith, tt)
]

-- All files can be deleted.
abbrev pub Deletable : List Processed → Type 0
Deletable = All (λ p. p.unlinks ≡ true)

abbrev AllMade : Option PruneEntry → Type 0
AllMade none = Unit {0}
AllMade (some e) = e.unlinks ≡ true

made-unlinks : (p : Processed) (ts : Option ℤ) → p.unlinks ≡ true → AllMade (make_prune_entry p ts)
made-unlinks p none h = tt
made-unlinks p (some ts) h = h

entry-unlinks : (p : Processed) → p.unlinks ≡ true → AllMade (prune_entry_of p)
unfolding prune_entry_of
entry-unlinks p h = elim (Bool-cases (is_event_name p.name && p.regular)) [
  | inl event ↦ rw event (made-unlinks p (parse_event_filename_timestamp p.name) h)
  | inr other ↦ rw other tt
]

collect-Unlink :
    (o : Option PruneEntry) (more : ℕ → List PruneEntry) (slots : ℕ)
    → AllMade o
    → ((n : ℕ) → AllUnlink (more n))
    → AllUnlink (collect_entry o more slots)
collect-Unlink none more zero h k = tt
collect-Unlink (some e) more zero h k = tt
collect-Unlink none more (suc slots) h k = k (suc slots)
collect-Unlink (some e) more (suc slots) h k = (h, k slots)

collected-Unlink :
    (ps : List Processed) → Deletable ps → (slots : ℕ) → AllUnlink (collect_entries ps slots)
unfolding collect_entries
collected-Unlink [] h slots = tt
collected-Unlink (p ∷ ps) (hp, h) slots =
    collect-Unlink (prune_entry_of p) (collect_entries ps) slots (entry-unlinks p hp)
      (collected-Unlink ps h)

-- Every deleted entry is at most as new as every entry that is left.
abbrev pub AreOlder : List PruneEntry → List PruneEntry → Type 0
AreOlder gone left = All (λ e. All (λ l. AtMost e.timestamp_us l.timestamp_us) left) gone

All-suffix : (P : PruneEntry → Type 0) (xs ys : List PruneEntry) → All P (xs ++ ys) → All P ys
All-suffix P [] ys h = h
All-suffix P (x ∷ xs) ys (_, h) = All-suffix P xs ys h

split-AreOlder : (gone left : List PruneEntry) → IsOldestFirst (gone ++ left) → AreOlder gone left
split-AreOlder [] left h = tt
split-AreOlder (e ∷ gone) left (he, h) = (All-suffix _ gone left he, split-AreOlder gone left h)

-- What the theorem says of a result.
abbrev pub IsOldestPrune : ℕ → List PruneEntry → List PruneEntry × List PruneEntry → Type 0
IsOldestPrune max_bytes entries (gone, left) =
    Reordered entries (gone ++ left)
    × (total_size left ≤ max_bytes)
    × AreOlder gone left
    × IsNeeded max_bytes gone left

sorted-IsOldestPrune :
    (max_bytes : ℕ) (entries sorted gone left : List PruneEntry)
    → Reordered entries sorted
    → IsOldestFirst sorted
    → Pruned max_bytes sorted (gone, left)
    → IsOldestPrune max_bytes entries (gone, left)
sorted-IsOldestPrune max_bytes entries sorted gone left r oldest (split, fits, needed) =
    (rw split r, fits, split-AreOlder gone left (rw split oldest), needed)

processed-IsOldestPrune :
    (qsort : (PruneEntry → PruneEntry → ℤ) → List PruneEntry → List PruneEntry)
    (sorts : Sorts qsort) (processed : List Processed) (max_bytes : ℕ)
    → Deletable processed
    → IsOldestPrune max_bytes
        (collect_entries processed bus_max_events)
        (prune_processed qsort processed max_bytes)
processed-IsOldestPrune qsort sorts processed max_bytes deletable =
    let entries = collect_entries processed bus_max_events in
    let unlink = collected-Unlink processed deletable bus_max_events in
    let (reordered, sorted) = sorts prune_compare prune_compare-IsOrder entries in
    let oldest = sorted-IsOldestFirst (qsort prune_compare entries) sorted in
    let looped =
      prune_loop-Pruned max_bytes (total_size entries) (qsort prune_compare entries)
        (AllUnlink-Reordered reordered unlink) (total_size-Reordered reordered) in
    let loop = prune_loop max_bytes (total_size entries) (qsort prune_compare entries) in
    let pruned : IsOldestPrune max_bytes entries loop =
      sorted-IsOldestPrune max_bytes entries (qsort prune_compare entries) loop.0 loop.1 reordered
        oldest looped in
    elim (Bool-cases (leb (total_size entries) max_bytes)) [
      | inl within ↦
          unfold prune_processed in rw within (Reordered_refl entries, ground arith, tt, tt)
      | inr above ↦ unfold prune_processed in rw above pruned
    ]

-- For a limit above 0, a `qsort` that sorts by a comparison function that is an order, and files that can be deleted: what is deleted and
-- what is left are together the scanned entries in some order, the sizes of what is left are within
-- the limit, everything deleted is at most as new as everything left, and without the last deletion
-- the limit would be exceeded. Where processed/ is not there nothing is deleted, and where it cannot be
-- opened the function returns -1.
pub bus_prune_oldest :
    (qsort : (PruneEntry → PruneEntry → ℤ) → List PruneEntry → List PruneEntry)
    (sorts : Sorts qsort) (processed : List Processed) (max_bytes : ℕ)
    → 0 < max_bytes
    → Deletable processed
    → (pruned : List PruneEntry × List PruneEntry) × (bus_prune qsort (opened processed) max_bytes
        ≡ ok pruned)
      × IsOldestPrune max_bytes (collect_entries processed bus_max_events) pruned
      × (bus_prune qsort absent max_bytes ≡ ok ([], []))
      × (bus_prune qsort unreadable max_bytes ≡ error)
bus_prune_oldest qsort sorts processed max_bytes some_room deletable =
    let room : ltb 0 max_bytes ≡ true = ground arith in
    (
      prune_processed qsort processed max_bytes,
      (unfold bus_prune in rw room refl),
      processed-IsOldestPrune qsort sorts processed max_bytes deletable,
      (unfold bus_prune in rw room refl),
      (unfold bus_prune in rw room refl),
    )
