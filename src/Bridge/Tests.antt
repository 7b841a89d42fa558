-- ===== src/Bridge/Tests.antt =====
-- The mentions of a concrete message.
use epistemic_framework.Common.{none, List, take, length, ◌≤◌, Bytes, codes, ◌≡◌, arith}
use epistemic_framework.Common.Outcome.{ok}
use epistemic_framework.Bridge.Mentions.{Mention, bus_extract_mentions}
use epistemic_framework.Bridge.Mentions.First.{bus_extract_mentions_first}
use epistemic_framework.Bridge.Mentions.Reference.{
  mentions_in, first_of_each, AreApart, IsMentionable,
}
use epistemic_framework.Common.{All}

abbrev greeting : Bytes
greeting = codes "@ann, a@b.de @bob! (@ann!) @cy"

bus_extract_mentions_first_example :
    (ms : List Mention) × (bus_extract_mentions 2 greeting ≡ ok ms)
    × (ms ≡ take 2 (first_of_each (mentions_in none greeting)))
    × (length ms ≤ 2)
    × AreApart ms
    × All IsMentionable ms
bus_extract_mentions_first_example = bus_extract_mentions_first 2 greeting (omega arith)
