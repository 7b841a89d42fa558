-- ===== src/BusCli/Delivered.antt =====
-- A sent message becomes events in the directory.
use epistemic_framework.Common.{
  ℕ, ◌*◌, ◌≤◌, ◌<◌, Bool, true, false, List, [], ◌∷◌, map, leb, length, All, lacks-Lacks,
  span_until, Bytes, codes, has_prefix, str_eq, some, ◌≡◌, refl, arith,
}
use epistemic_framework.Common.Outcome.{ok}
use epistemic_framework.Common.Decimal.{strtoll}
use epistemic_framework.Bus.Event.{
  bus_max_handle, bus_max_type, has_whitespace, priority_from, bus_priority_from_str, EventFile,
  read_event_fields,
}
use epistemic_framework.Bus.Event.Published.{IsName, IsReady, bus_publish-read}
use epistemic_framework.Bus.Config.{
  max_seconds, whole_number, bus_load_config, bus_load_config-IsConfig,
}
use epistemic_framework.Bridge.Mentions.{Mention, bus_extract_mentions}
use epistemic_framework.Bridge.Mentions.First.{bus_extract_mentions_first}
use epistemic_framework.Bridge.Events.{
  max_mentions, Publish, chat_payload, mention_event, message_event, bus_bridge_after_send,
}
use epistemic_framework.BusCli.{
  bus_max_path, directory, BusMachine, published, verify_events_dir, is_valid_name,
  parse_dedup_window_opt, cmd_publish,
}

-- The arguments that the bridge gives to nbs-bus, behind the name of the command.
abbrev pub arguments : Publish → List Bytes
arguments e =
    e.events_dir ∷ e.source ∷ e.event_type ∷ e.priority ∷ e.payload ∷ codes "--dedup-window=0" ∷ []

-- The event is published, and the readers find in its file the priority that was meant, the source and the type.
abbrev pub IsDelivered : BusMachine → Publish → Type 0
IsDelivered w e =
    (file : EventFile) × (priority : ℕ) × (cmd_publish w (arguments e) ≡ ok (published file))
    × (bus_priority_from_str e.priority ≡ some priority)
    × (read_event_fields bus_max_handle bus_max_type (some file.text)
        ≡ some (record { priority = priority; source = e.source; type = e.event_type }))

valid : (s : Bytes) → IsName s → is_valid_name s ≡ true
unfolding is_valid_name
valid [] (some_byte, _, _, _) = absurd (omega arith)
valid (c ∷ s) (_, _, _, space) = rw space refl

no_window : whole_number (codes "0") ≡ some 0
unfolding whole_number strtoll span_until
no_window = refl

not_option :
    (payload : Bytes)
    → has_prefix (codes "--") payload ≡ false
    → has_prefix (codes "--dedup-window=") payload ≡ false
unfolding has_prefix
not_option [] h = refl
not_option (c ∷ []) h = ground arith
not_option (c ∷ d ∷ s) h = ground arith

window_zero :
    (payload : Bytes) (default : ℕ)
    → has_prefix (codes "--") payload ≡ false
    → parse_dedup_window_opt (payload ∷ codes "--dedup-window=0" ∷ []) default ≡ some 0
unfolding parse_dedup_window_opt
window_zero payload default h =
    let starts : has_prefix (codes "--dedup-window=") (codes "--dedup-window=0") ≡ true =
      unfold has_prefix in refl in
    rw (not_option payload h, starts, no_window) refl

delivered :
    (w : BusMachine) (e : Publish) (priority : ℕ)
    → w.dir_state ≡ directory
    → IsReady w.host
    → length e.events_dir < bus_max_path
    → IsName e.source
    → IsName e.event_type
    → bus_priority_from_str e.priority ≡ some priority
    → priority ≤ 3
    → has_prefix (codes "--") e.payload ≡ false
    → IsDelivered w e
delivered w e priority there ready short source type named small plain =
    let (file, publishes, _, _, fields, _) =
      bus_publish-read w.host e.source e.event_type priority (some e.payload) ready source type
        small in
    let (_, seconds, _) = bus_load_config-IsConfig w.config in
    let (e₁, e₂) : (leb priority 3 ≡ true) × (leb bus_max_path (length e.events_dir) ≡ false) =
      (ground arith, ground arith) in
    let e₃ : leb (bus_load_config w.config).dedup_window_s max_seconds ≡ true = ground arith in
    let dir : verify_events_dir w.dir_state e.events_dir ≡ 0 =
      unfold verify_events_dir in rw (e₂, there) refl in
    let window =
      window_zero e.payload ((bus_load_config w.config).dedup_window_s * 1000000) plain in
    (
      file,
      priority,
      (unfold cmd_publish in
          rw
            (
              valid e.source source,
              valid e.event_type type,
              dir,
              named,
              e₁,
              e₃,
              plain,
              window,
              publishes,
            )
            refl),
      named,
      fields,
    )

source-IsName : IsName (codes "nbs-chat")
unfolding has_whitespace
source-IsName = (omega arith, omega arith, lacks-Lacks 0 (codes "nbs-chat") refl, refl)

message-IsName : IsName (codes "chat-message")
unfolding has_whitespace
message-IsName = (omega arith, omega arith, lacks-Lacks 0 (codes "chat-message") refl, refl)

interrupt-IsName : IsName (codes "chat-interrupt")
unfolding has_whitespace
interrupt-IsName = (omega arith, omega arith, lacks-Lacks 0 (codes "chat-interrupt") refl, refl)

mention-IsName : IsName (codes "chat-mention")
unfolding has_whitespace
mention-IsName = (omega arith, omega arith, lacks-Lacks 0 (codes "chat-mention") refl, refl)

critical : bus_priority_from_str (codes "critical") ≡ some 0
unfolding bus_priority_from_str priority_from str_eq
critical = refl

high : bus_priority_from_str (codes "high") ≡ some 1
unfolding bus_priority_from_str priority_from str_eq
high = refl

normal : bus_priority_from_str (codes "normal") ≡ some 2
unfolding bus_priority_from_str priority_from str_eq
normal = refl

plain_payload :
    (handle message : Bytes)
    → has_prefix (codes "--") handle ≡ false
    → has_prefix (codes "--") (chat_payload handle message) ≡ false
unfolding has_prefix chat_payload
plain_payload [] message h = refl
plain_payload (c ∷ []) message h = ground arith
plain_payload (c ∷ d ∷ s) message h = ground arith

module _ (w : BusMachine) (dir handle message : Bytes) (there : w.dir_state ≡ directory)
    (ready : IsReady w.host) (short : length dir < bus_max_path) where
  case-IsDelivered :
      (name : Bytes) (interrupt : Bool)
      → IsDelivered w
          (mention_event dir handle message (record { handle = name; interrupt = interrupt }))
  unfolding mention_event has_prefix
  case-IsDelivered name true =
      delivered w (mention_event dir handle message (record { handle = name; interrupt = true })) 0
        there ready short source-IsName interrupt-IsName critical (omega arith) refl
  case-IsDelivered name false =
      delivered w (mention_event dir handle message (record { handle = name; interrupt = false })) 1
        there ready short source-IsName mention-IsName high (omega arith) refl

  mention-IsDelivered : (m : Mention) → IsDelivered w (mention_event dir handle message m)
  mention-IsDelivered m = case-IsDelivered m.handle m.interrupt

  mentions-IsDelivered :
      (ms : List Mention) → All (IsDelivered w) (map (mention_event dir handle message) ms)
  mentions-IsDelivered [] = tt
  mentions-IsDelivered (m ∷ ms) = (mention-IsDelivered m, mentions-IsDelivered ms)

-- A message is sent where there is an events directory on a host on which nothing fails, with a path below the
-- limit, by a handle that does not start with two dashes, and whatever its config.yaml holds: every event that the bridge publishes
-- for it (the message, then one for each mention) passes nbs-bus and is in the directory, where the readers find the
-- priority, source and type that were meant.
pub message-IsDelivered :
    (w : BusMachine) (dir handle message : Bytes)
    → w.dir_state ≡ directory
    → IsReady w.host
    → length dir < bus_max_path
    → has_prefix (codes "--") handle ≡ false
    → (ms : List Mention) × (bus_extract_mentions max_mentions message ≡ ok ms)
      × (bus_bridge_after_send (some dir) handle message
          ≡ ok (message_event dir handle message ∷ map (mention_event dir handle message) ms))
      × All
          (IsDelivered w)
          (message_event dir handle message ∷ map (mention_event dir handle message) ms)
message-IsDelivered w dir handle message there ready short plain =
    let (ms, found, _, _, _, _) = bus_extract_mentions_first max_mentions message (omega arith) in
    let first : IsDelivered w (message_event dir handle message) =
      unfold message_event in
      delivered w _ 2 there ready short source-IsName message-IsName normal (omega arith)
        (plain_payload handle message plain) in
    (
      ms,
      found,
      (unfold bus_bridge_after_send in rw found refl),
      (first, mentions-IsDelivered w dir handle message there ready short ms),
    )
