-- ===== src/Bus/Scan/Dedup.antt =====
-- `bus_publish_dedup`: when an event is dropped.
use epistemic_framework.Common.{
  ℕ, ◌+◌, ◌≤◌, true, List, [], ◌∷◌, ◌++◌, ltb, leb, length-append, take, take_whole, Bytes,
  str_eq_refl, Option, some, ◌≡◌, refl, arith, inl, inr, Bool-cases,
}
use epistemic_framework.Common.Int.{ℤ, pos, leb_ℤ}
use epistemic_framework.Common.Outcome.{ok}
use epistemic_framework.Bus.Event.{
  Host, EventFile, bus_publish, parse_event_filename_timestamp, is_event_name, read_event_dedup_key,
}
use epistemic_framework.Bus.Event.Published.{IsName, IsReady, bus_publish-read}
use epistemic_framework.Bus.Scan.{
  Entry, minus, is_duplicate, duplicate_found, dropped, bus_publish_dedup,
}
use epistemic_framework.Bus.Scan.Append.{entry}

duplicate_found_at :
    (key : Bytes) (cutoff : ℤ) (before : List Entry) (e : Entry) (after : List Entry)
    → is_duplicate key cutoff e ≡ true
    → duplicate_found key cutoff (before ++ (e ∷ after)) ≡ true
unfolding duplicate_found
duplicate_found_at key cutoff [] e after h = rw h
duplicate_found_at key cutoff (x ∷ before) e after h =
    ground (arith, duplicate_found_at key cutoff before e after h)

cutoff_reached :
    (now past window : ℕ) → now ≤ past + window → leb_ℤ (minus now window) (pos past) ≡ true
cutoff_reached now past window h = elim (Bool-cases (leb window now)) [
  | inl within ↦ rw within (ground arith)
  | inr beyond ↦ rw beyond refl
]

is_duplicate-entry :
    (file : EventFile) (key : Bytes) (past : ℕ) (cutoff : ℤ)
    → is_event_name file.name ≡ true
    → parse_event_filename_timestamp file.name ≡ some (pos past)
    → read_event_dedup_key 258 (some file.text) ≡ some key
    → leb_ℤ cutoff (pos past) ≡ true
    → is_duplicate key cutoff (entry file) ≡ true
is_duplicate-entry file key past cutoff name time found reached =
    unfold is_duplicate in rw (name, time, reached, found) (str_eq_refl key)

-- An event of a source and a type of 1 to 127 bytes without white space that was published on a host
-- on which nothing failed, whatever else is in the directory: until the window has passed, a
-- publish of the same source and type with that window is dropped, whatever its priority and payload.
pub bus_publish_dedup-bus_publish :
    (host later : Host) (source type : Bytes) (priority priority' : ℕ)
    (payload payload' : Option Bytes) (before after : List Entry) (window : ℕ)
    → IsReady host
    → IsName source
    → IsName type
    → priority ≤ 3
    → 1 ≤ window
    → later.now_us ≤ host.now_us + window
    → (file : EventFile) × (bus_publish host source type priority payload ≡ ok file)
      × (bus_publish_dedup later
            (some (before ++ (entry file ∷ after)))
            source
            type
            priority'
            payload'
            window
          ≡ ok dropped)
bus_publish_dedup-bus_publish host later source type priority priority' payload payload' before
      after window ready hs ht hp hw soon =
    let (file, done, name, time, _, key) =
      bus_publish-read host source type priority payload ready hs ht hp in
    let (_, s_short, _, _) = hs in
    let (_, t_short, _, _) = ht in
    let whole : take 257 (source ++ (b':' ∷ type)) ≡ source ++ (b':' ∷ type) =
      take_whole 257 (source ++ (b':' ∷ type))
        (omega (arith, length-append source (b':' ∷ type))) in
    let cutoff = minus later.now_us window in
    let duplicate =
      is_duplicate-entry file (source ++ (b':' ∷ type)) host.now_us cutoff name time key
        (cutoff_reached later.now_us host.now_us window soon) in
    let found =
      duplicate_found_at (source ++ (b':' ∷ type)) cutoff before (entry file) after duplicate in
    let positive : ltb 0 window ≡ true = ground arith in
    (file, done, unfold bus_publish_dedup in rw (positive, whole, found))
