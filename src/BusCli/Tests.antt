-- ===== src/BusCli/Tests.antt =====
-- A message that is sent to a concrete events directory.
use epistemic_framework.Common.{
  List, map, [], ◌∷◌, All, Bytes, codes, has_prefix, some, false, ◌≡◌, refl, arith,
}
use epistemic_framework.Common.Outcome.{ok}
use epistemic_framework.Bus.Tests.{host, host-IsReady}
use epistemic_framework.Bridge.Mentions.{Mention, bus_extract_mentions}
use epistemic_framework.Bridge.Events.{
  max_mentions, mention_event, message_event, bus_bridge_after_send,
}
use epistemic_framework.BusCli.{directory, BusMachine}
use epistemic_framework.BusCli.Delivered.{IsDelivered, message-IsDelivered}

abbrev machine : BusMachine
machine = record {
  dir_state = directory;
  config = some (codes "dedup-window: 60\n");
  entries = some [];
  host = host;
}

abbrev dir : Bytes
dir = codes "/p/.nbs/events"

abbrev alice : Bytes
alice = codes "alice"

abbrev stop : Bytes
stop = codes "@bob! stop, @ann"

plain : has_prefix (codes "--") alice ≡ false
unfolding has_prefix
plain = refl

message-IsDelivered_example :
    (ms : List Mention) × (bus_extract_mentions max_mentions stop ≡ ok ms)
    × (bus_bridge_after_send (some dir) alice stop
        ≡ ok (message_event dir alice stop ∷ map (mention_event dir alice stop) ms))
    × All
        (IsDelivered machine)
        (message_event dir alice stop ∷ map (mention_event dir alice stop) ms)
message-IsDelivered_example =
    message-IsDelivered machine dir alice stop refl host-IsReady (omega arith) plain
