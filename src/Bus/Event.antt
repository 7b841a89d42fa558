-- ===== src/Bus/Event.antt =====
-- Event files: priorities, the text and the name that `bus_publish` gives them, and the functions that
-- read them back.
pub mod ReadBack
pub mod Name
pub mod Published
use epistemic_framework.Common.{
  ℕ, zero, suc, ◌+◌, ◌-◌, ◌<◌, Bool, true, false, not, ◌&&◌, ◌||◌, List, [], ◌∷◌, ◌++◌, ltb, leb,
  ◌==◌, if◌then◌else◌, length, get_or, take, drop, Bytes, codes, str_eq, has_prefix, span_until,
  is_digit, is_space, Option, none, some, ◌≡◌, refl,
}
use epistemic_framework.Common.Outcome.{Outcome, ok, error, abort, ◌>>=◌, ◌>>◌, assert, require}
use epistemic_framework.Common.Int.{ℤ, pos, negsuc}
use epistemic_framework.Common.Decimal.{print_ℕ, Strtoll, strtoll, not_digit}
use epistemic_framework.Common.Fgets.{fgets_lines, chunks, c_strings, c_string, unlines}

abbrev pub bus_max_handle : ℕ
bus_max_handle = 128

abbrev pub bus_max_type : ℕ
bus_max_type = 128

abbrev pub bus_max_filename : ℕ
bus_max_filename = 512

abbrev pub priority_names : List Bytes
priority_names = codes "critical" ∷ codes "high" ∷ codes "normal" ∷ codes "low" ∷ []

-- The loop over the names, from index `i` on.
unfoldable pub priority_from : ℕ → List Bytes → Bytes → Option ℕ
priority_from i [] s = none
priority_from i (name ∷ names) s =
    let later = priority_from (i + 1) names s in if str_eq s name then some i else later

unfoldable pub bus_priority_from_str : Bytes → Option ℕ
bus_priority_from_str s = priority_from 0 priority_names s

unfoldable pub bus_priority_to_str : ℕ → Outcome Bytes
bus_priority_to_str p = do assert (leb p 3); ok (get_or priority_names p [])

unfoldable pub has_whitespace : Bytes → Bool
has_whitespace [] = false
has_whitespace (c ∷ s) = is_space c || has_whitespace s

-- The bytes of the payload block from here on: two spaces at the start of each line, and a newline
-- at the end if there is none.
unfoldable pub indent : Bool → Bytes → Bytes
indent true [] = []
indent false [] = 10 ∷ []
indent true (c ∷ s) = b' ' ∷ b' ' ∷ c ∷ indent (c == 10) s
indent false (c ∷ s) = c ∷ indent (c == 10) s

-- `none` is a payload that is NULL.
unfoldable pub payload_text : Option Bytes → Bytes
payload_text none = []
payload_text (some []) = []
payload_text (some (c ∷ s)) = codes "payload: |\n" ++ indent true (c ∷ s)

abbrev pub event_lines : Bytes → Bytes → Bytes → Bytes → List Bytes
event_lines source type priority iso_time =
    (codes "source: " ++ source)
    ∷ (codes "type: " ++ type)
    ∷ (codes "priority: " ++ priority)
    ∷ (codes "timestamp: " ++ iso_time)
    ∷ (codes "dedup-key: " ++ (source ++ (b':' ∷ type)))
    ∷ []

unfoldable pub event_text : Bytes → Bytes → Bytes → Bytes → Option Bytes → Bytes
event_text source type priority iso_time payload =
    unlines (event_lines source type priority iso_time) ++ payload_text payload

-- `snprintf` of "%lld-%s-%s-%d.event" into a buffer of BUS_MAX_FILENAME bytes.
abbrev pub event_name : ℕ → Bytes → Bytes → ℕ → Bytes
event_name ts_us source type pid =
    print_ℕ ts_us
    ++ (b'-' ∷ (source ++ (b'-' ∷ (type ++ (b'-' ∷ (print_ℕ pid ++ codes ".event"))))))

-- What the file system and the clock give to a publish: whether the directory is there, whether
-- `processed/` is there or can be made, whether the file is written and renamed.
pub record Host : Type 0 where
  pub directory : Bool
  pub processed : Bool
  pub written : Bool
  pub now_us : ℕ
  pub pid : ℕ
  pub iso_time : Bytes

-- A file under its final name.
pub record EventFile : Type 0 where
  pub name : Bytes
  pub text : Bytes

unfoldable pub bus_publish : Host → Bytes → Bytes → ℕ → Option Bytes → Outcome EventFile
bus_publish host source type priority payload = do
  assert (ltb 0 (length source))
  assert (ltb 0 (length type))
  assert (leb priority 3)
  require (not (has_whitespace source))
  require (not (has_whitespace type))
  require host.directory
  require host.processed
  priority_str ← bus_priority_to_str priority
  require host.written
  ok (record {
    name = take (bus_max_filename - 1) (event_name host.now_us source type host.pid);
    text = event_text source type priority_str host.iso_time payload;
  })

abbrev pub is_dash : ℕ → Bool
is_dash c = c == b'-'

unfoldable pub all_digits : Bytes → Bool
all_digits [] = true
all_digits (c ∷ s) = is_digit c && all_digits s

abbrev pub parsed_number : Strtoll → Option ℤ
parsed_number v = if v.out_of_range || ltb 0 (length v.rest) then none else some v.value

-- The digits before the first dash; `strchr` finds none in a name without a dash.
abbrev pub timestamp_before : Bytes × Bytes → Option ℤ
timestamp_before (digits, []) = none
timestamp_before (digits, _ ∷ _) =
    if length digits == 0 || leb 32 (length digits)
    then none
    else if not (all_digits digits)
    then none
    else parsed_number (strtoll digits)

unfoldable pub parse_event_filename_timestamp : Bytes → Option ℤ
parse_event_filename_timestamp filename = timestamp_before (span_until is_dash filename)

-- `nlen >= 7 && strcmp(name + nlen - 6, ".event") == 0`
unfoldable pub is_event_name : Bytes → Bool
is_event_name name = leb 7 (length name) && str_eq (drop (length name - 6) name) (codes ".event")

-- The value on a line behind the field's name, up to the newline.
abbrev pub is_newline : ℕ → Bool
is_newline c = c == 10

unfoldable pub field_value : ℕ → Bytes → Bytes
field_value n line = (span_until is_newline (drop n line)).0

pub record Fields : Type 0 where
  pub priority : ℕ
  pub source : Bytes
  pub type : Bytes

-- The loop's state: the bits 1, 2 and 4 of `found`, and the fields.
pub record Found : Type 0 where
  pub has_priority : Bool
  pub has_source : Bool
  pub has_type : Bool
  pub fields : Fields

abbrev pub priority_or : ℕ → Option ℕ → ℕ
priority_or d none = d
priority_or d (some p) = p

unfoldable pub read_field : ℕ → ℕ → Found → Bytes → Found
read_field source_len type_len f line =
    if not f.has_priority && has_prefix (codes "priority: ") line
    then record f {
      has_priority = true;
      fields = record f.fields {
        priority = priority_or f.fields.priority (bus_priority_from_str (field_value 10 line));
      };
    }
    else if not f.has_source && has_prefix (codes "source: ") line
    then record f {
      has_source = true;
      fields = record f.fields { source = take (source_len - 1) (field_value 8 line) };
    }
    else if not f.has_type && has_prefix (codes "type: ") line
    then record f {
      has_type = true;
      fields = record f.fields { type = take (type_len - 1) (field_value 6 line) };
    }
    else f

-- The loop stops when all three are found.
unfoldable pub read_fields : ℕ → ℕ → Found → List Bytes → Found
read_fields source_len type_len f [] = f
read_fields source_len type_len f (line ∷ lines) =
    let rest = read_fields source_len type_len (read_field source_len type_len f line) lines in
    if f.has_priority && f.has_source && f.has_type then f else rest

abbrev pub nothing_found : Found
nothing_found = record {
  has_priority = false;
  has_source = false;
  has_type = false;
  fields = record { priority = 2; source = []; type = [] };
}

-- `none` is a file that cannot be opened.
unfoldable pub read_event_fields : ℕ → ℕ → Option Bytes → Option Fields
read_event_fields source_len type_len none = none
read_event_fields source_len type_len (some text) =
    some ((read_fields source_len type_len nothing_found (fgets_lines 512 text)).fields)

unfoldable pub find_dedup_key : ℕ → List Bytes → Option Bytes
find_dedup_key key_len [] = none
find_dedup_key key_len (line ∷ lines) =
    let rest = find_dedup_key key_len lines in
    if has_prefix (codes "dedup-key: ") line
    then some (take (key_len - 1) (field_value 11 line))
    else rest

unfoldable pub read_event_dedup_key : ℕ → Option Bytes → Option Bytes
read_event_dedup_key key_len none = none
read_event_dedup_key key_len (some text) = find_dedup_key key_len (fgets_lines 512 text)
