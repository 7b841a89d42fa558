-- ===== src/Bus/Event/Published.antt =====
-- `bus_publish` on every branch, and what its readers find in the file.
use epistemic_framework.Common.{
  ℕ, ◌-◌, ◌^◌, ◌≤◌, ◌<◌, Bool, true, false, [], ◌∷◌, ◌++◌, ltb, leb, length, length-append, take,
  All, All-append, Lacks, Bytes, codes, Option, some, ◌≡◌, refl, ap, arith,
}
use epistemic_framework.Common.Outcome.{ok}
use epistemic_framework.Common.Int.{pos, llong_max}
use epistemic_framework.Common.Fgets.{
  one_line-IsOneLine, IsOneLine, IsLine, fgets_lines, unlines, with_newlines, fgets_lines-append,
}
use epistemic_framework.Bus.Event.{
  bus_max_handle, bus_max_type, bus_max_filename, bus_priority_from_str, has_whitespace,
  payload_text, event_lines, event_text, event_name, Host, EventFile, bus_publish,
  parse_event_filename_timestamp, is_event_name, read_event_fields, read_event_dedup_key,
}
use epistemic_framework.Bus.Event.ReadBack.{
  IsPriority, IsPriority-name, IsWord, read_fields-event_lines, find_dedup_key-event_lines,
}
use epistemic_framework.Bus.Event.Name.{event_name_lem}

-- A source or type that fits the readers' buffers: 1 to 127 bytes without white space.
abbrev pub IsName : Bytes → Type 0
IsName s = (1 ≤ length s) × (length s < bus_max_handle) × Lacks 0 s × (has_whitespace s ≡ false)

-- A host on which nothing fails, with a clock and a process id in their types' ranges.
abbrev pub IsReady : Host → Type 0
IsReady h =
    (h.directory ≡ true)
    × (h.processed ≡ true)
    × (h.written ≡ true)
    × (h.now_us ≤ llong_max)
    × (h.pid < 10 ^ 10)
    × (IsOneLine h.iso_time × (length h.iso_time ≤ 31))

no_space_line : (s : Bytes) → Lacks 0 s → has_whitespace s ≡ false → IsOneLine s
unfolding has_whitespace
no_space_line [] h w = tt
no_space_line (c ∷ s) (hc, h) w = (ground arith, no_space_line s h (ground arith))

name-IsWord : (s : Bytes) → IsName s → IsWord s
name-IsWord s (_, short, nul, space) = (no_space_line s nul space, short)

module _ (source type name iso : Bytes) (hs : IsWord source) (ht : IsWord type) where
  event_lines-IsLine :
      IsOneLine name
      → length name ≤ 8
      → IsOneLine iso
      → length iso ≤ 31
      → All (IsLine 512) (event_lines source type name iso)
  event_lines-IsLine hn ln hi li =
      let (s_line, s_short) = hs in
      let (t_line, t_short) = ht in
      (
        (
          All-append _ (codes "source: ") source (one_line-IsOneLine (codes "source: ") refl)
              s_line,
          omega arith,
        ),
        (
          (
            All-append _ (codes "type: ") type (one_line-IsOneLine (codes "type: ") refl) t_line,
            omega arith,
          ),
          (
            (
              All-append _ (codes "priority: ") name (one_line-IsOneLine (codes "priority: ") refl)
                  hn,
              omega arith,
            ),
            (
              (
                All-append _ (codes "timestamp: ") iso
                    (one_line-IsOneLine (codes "timestamp: ") refl) hi,
                omega arith,
              ),
              (
                (
                  All-append _ (codes "dedup-key: ") (source ++ (b':' ∷ type))
                      (one_line-IsOneLine (codes "dedup-key: ") refl)
                      (All-append _ source (b':' ∷ type) s_line (refl, t_line)),
                  omega (arith, length-append source (b':' ∷ type)),
                ),
                tt,
              ),
            ),
          ),
        ),
      )

-- What the readers find in the text of an event, whatever its payload.
read_event-event_text :
    (source type name iso : Bytes) (p : ℕ) (payload : Option Bytes)
    → IsWord source
    → IsWord type
    → IsOneLine name
    → length name ≤ 8
    → IsOneLine iso
    → length iso ≤ 31
    → bus_priority_from_str name ≡ some p
    → (read_event_fields bus_max_handle bus_max_type
          (some (event_text source type name iso payload))
        ≡ some (record { priority = p; source = source; type = type }))
      × (read_event_dedup_key 258 (some (event_text source type name iso payload))
          ≡ some (source ++ (b':' ∷ type)))
read_event-event_text source type name iso p payload hs ht hn ln hi li e =
    let more = fgets_lines 512 (payload_text payload) in
    let lines = event_lines source type name iso in
    let read : fgets_lines 512 (unlines lines ++ payload_text payload)
        ≡ with_newlines lines ++ more =
      fgets_lines-append 512 lines (payload_text payload)
        (event_lines-IsLine source type name iso hs ht hn ln hi li) in
    let fields = read_fields-event_lines source type name iso p more hs ht hn e in
    let key = find_dedup_key-event_lines source type name iso p more hs ht in
    (
      unfold read_event_fields in unfold event_text in rw read (ap some fields),
      unfold read_event_dedup_key in unfold event_text in rw read key,
    )

publishes :
    (d p w : Bool) (now pid : ℕ) (iso source type name : Bytes) (priority : ℕ)
    (payload : Option Bytes)
    → d ≡ true
    → p ≡ true
    → w ≡ true
    → IsName source
    → IsName type
    → priority ≤ 3
    → IsPriority priority name
    → take (bus_max_filename - 1) (event_name now source type pid) ≡ event_name now source type pid
    → bus_publish
        (record {
          directory = d;
          processed = p;
          written = w;
          now_us = now;
          pid = pid;
          iso_time = iso;
        })
        source
        type
        priority
        payload
      ≡ ok (record {
        name = event_name now source type pid;
        text = event_text source type name iso payload;
      })
publishes d p w now pid iso source type name priority payload hd hp hw hs ht le named whole =
    let (s_some, _, _, s_space) = hs in
    let (t_some, _, _, t_space) = ht in
    let s_filled : ltb 0 (length source) ≡ true = ground arith in
    let t_filled : ltb 0 (length type) ≡ true = ground arith in
    let p_fits : leb priority 3 ≡ true = ground arith in
    unfold bus_publish in
    rw (s_filled, t_filled, p_fits, s_space, t_space, hd, hp, named, hw, whole)

-- On a host on which nothing fails, an event with a priority from 0 to 3 and a source and a type of 1 to 127 bytes
-- without white space is published: the name of its file is that of an event and gives the clock's
-- time back, and the readers find in the file the priority, the source and the type, and the
-- key `source:type`, whatever the payload is.
pub bus_publish-read :
    (host : Host) (source type : Bytes) (priority : ℕ) (payload : Option Bytes)
    → IsReady host
    → IsName source
    → IsName type
    → priority ≤ 3
    → (file : EventFile) × (bus_publish host source type priority payload ≡ ok file)
      × (is_event_name file.name ≡ true)
      × (parse_event_filename_timestamp file.name ≡ some (pos host.now_us))
      × (read_event_fields bus_max_handle bus_max_type (some file.text)
          ≡ some (record { priority = priority; source = source; type = type }))
      × (read_event_dedup_key 258 (some file.text) ≡ some (source ++ (b':' ∷ type)))
bus_publish-read host source type priority payload (dir, proc, written, clock, pid, (iso, iso_len))
      hs ht hp =
    let (_, s_short, _, _) = hs in
    let (_, t_short, _, _) = ht in
    let (name, named, back, name_line, name_len) = IsPriority-name priority hp in
    let (whole, event, time) =
      event_name_lem host.now_us source type host.pid clock pid s_short t_short in
    let (fields, key) =
      read_event-event_text source type name host.iso_time priority payload (name-IsWord source hs)
        (name-IsWord type ht) name_line name_len iso iso_len back in
    (
      record {
        name = event_name host.now_us source type host.pid;
        text = event_text source type name host.iso_time payload;
      },
      publishes host.directory host.processed host.written host.now_us host.pid host.iso_time source
          type name priority payload dir proc written hs ht hp named whole,
      event,
      time,
      fields,
      key,
    )
