-- ===== src/Bridge/Events.antt =====
-- The search for the events directory, and the events that a sent message becomes.
use epistemic_framework.Common.{
  ℕ, zero, suc, ◌-◌, List, [], ◌∷◌, ◌++◌, map, ltb, ◌==◌, if◌then◌else◌, length, take, Bytes, codes,
  str_eq, Option, none, some, ◌≡◌, refl,
}
use epistemic_framework.Common.Outcome.{Outcome, ok, ◌>>=◌}
use epistemic_framework.Bridge.Mentions.{Mention, bus_extract_mentions}

abbrev pub max_path_len : ℕ
max_path_len = 4096

abbrev pub max_dir_walk_depth : ℕ
max_dir_walk_depth = 10

abbrev pub max_payload_len : ℕ
max_payload_len = 2048

abbrev pub max_mentions : ℕ
max_mentions = 16

abbrev strip_step : ℕ → Bytes → Bytes
strip_step c [] = if c == b'/' then [] else c ∷ []
strip_step c (d ∷ s) = c ∷ d ∷ s

-- Without the slashes at the end.
abbrev strip_slashes : Bytes → Bytes
strip_slashes [] = []
strip_slashes (c ∷ s) = strip_step c (strip_slashes s)

abbrev before_step : ℕ → Option Bytes → Option Bytes
before_step c none = if c == b'/' then some [] else none
before_step c (some s) = some (c ∷ s)

-- What stands before the last slash.
abbrev before_last_slash : Bytes → Option Bytes
before_last_slash [] = none
before_last_slash (c ∷ s) = before_step c (before_last_slash s)

abbrev or_root : Bytes → Bytes
or_root [] = codes "/"
or_root (c ∷ s) = c ∷ s

abbrev parent_of : Bytes → Option Bytes → Bytes
parent_of (c ∷ s) none = if c == b'/' then codes "/" else codes "."
parent_of [] none = codes "."
parent_of path (some p) = or_root (strip_slashes p)

-- `dirname`
unfoldable pub dirname : Bytes → Bytes
dirname path = parent_of path (before_last_slash (strip_slashes path))

-- `snprintf` to a buffer of `size` bytes.
abbrev pub clip : ℕ → Bytes → Bytes
clip size s = take (size - 1) s

-- `directory` gives the resolved path of a directory that is there: `realpath`, then `stat`.
module _ (directory : Bytes → Option Bytes) (out_buf_size : ℕ) where
  abbrev pub found_or : Option Bytes → Option Bytes → Option Bytes
  found_or (some resolved) later =
      if ltb (length resolved) out_buf_size then some resolved else none
  found_or none later = later

  unfoldable pub walk_up : ℕ → Bytes → Bytes → Option Bytes
  walk_up zero dir prev_dir = none
  walk_up (suc depth) dir prev_dir =
      let further = walk_up depth (dirname dir) dir in
      found_or (directory (clip max_path_len (dir ++ codes "/../events"))) (
        found_or (directory (clip max_path_len (dir ++ codes "/.nbs/events")))
          (if str_eq dir prev_dir then none else further))

  unfoldable pub bus_find_events_dir : Bytes → Option Bytes
  bus_find_events_dir chat_path =
      if ltb (length chat_path) max_path_len
      then walk_up max_dir_walk_depth (dirname chat_path) []
      else none

-- The arguments of one `nbs-bus publish`.
pub record Publish : Type 0 where
  pub events_dir : Bytes
  pub source : Bytes
  pub event_type : Bytes
  pub priority : Bytes
  pub payload : Bytes

unfoldable pub chat_payload : Bytes → Bytes → Bytes
chat_payload handle message = clip max_payload_len (handle ++ codes ": " ++ message)

unfoldable pub mention_event : Bytes → Bytes → Bytes → Mention → Publish
mention_event events_dir handle message m = record {
  events_dir = events_dir;
  source = codes "nbs-chat";
  event_type = if m.interrupt then codes "chat-interrupt" else codes "chat-mention";
  priority = if m.interrupt then codes "critical" else codes "high";
  payload =
      clip max_payload_len
        (codes "@" ++ (m.handle ++ (codes " from " ++ (handle ++ (codes ": " ++ message)))));
}

unfoldable pub message_event : Bytes → Bytes → Bytes → Publish
message_event events_dir handle message = record {
  events_dir = events_dir;
  source = codes "nbs-chat";
  event_type = codes "chat-message";
  priority = codes "normal";
  payload = chat_payload handle message;
}

unfoldable pub input_event : Bytes → Bytes → Bytes → Publish
input_event events_dir handle message = record {
  events_dir = events_dir;
  source = codes "nbs-chat-terminal";
  event_type = codes "human-input";
  priority = codes "high";
  payload = chat_payload handle message;
}

-- What is published, in its order. Whether a publish succeeds makes no difference.
unfoldable pub bus_bridge_after_send : Option Bytes → Bytes → Bytes → Outcome (List Publish)
bus_bridge_after_send none handle message = ok []
bus_bridge_after_send (some dir) handle message = do
  mentions ← bus_extract_mentions max_mentions message
  ok (message_event dir handle message ∷ map (mention_event dir handle message) mentions)

unfoldable pub bus_bridge_human_input : Option Bytes → Bytes → Bytes → List Publish
bus_bridge_human_input none handle message = []
bus_bridge_human_input (some dir) handle message = input_event dir handle message ∷ []

parent : dirname (codes "/a/b//c/") ≡ codes "/a/b"
unfolding dirname
parent = refl

top : dirname (codes "/a") ≡ codes "/"
unfolding dirname
top = refl

bare : dirname (codes "a") ≡ codes "."
unfolding dirname
bare = refl
