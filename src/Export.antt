-- ===== src/Export.antt =====
-- frontend/src/components/export/ConfigExport.tsx: streams and consumers as commands, as JSON and as
-- Terraform resources. `lower` is `toLowerCase`, and `stringify` is `JSON.stringify` with two blanks,
-- of a list of fields. Copying and downloading are left out.
pub mod OfConsumer
pub mod Durations
pub mod Identifiers
mod Tests
use Prim.Native.Char.{Char, code}
use Prim.Native.String
use nats_ui.Prelude.{
  ℤ, pos, negsuc, neg, int_text, is_nonzero, ℕ, zero, suc, ◌+◌, ◌/◌, ◌%◌, String, str_eq, ◌^+◌,
  decimal, Bool, true, false, not, ◌&&◌, ◌||◌, Option, none, some, or_else, List, [], ◌∷◌, ◌++◌,
  map, leb, ltb, ◌==◌, if◌then◌else◌,
}
use nats_ui.Types.Streams
use nats_ui.Types.Streams.{StreamConfig, RetentionPolicy, StorageType, DiscardPolicy}
use nats_ui.Types.Consumers
use nats_ui.Types.Consumers.{ConsumerConfig, DeliverPolicy, AckPolicy, ReplayPolicy}

-- The texts of the enumerations.
abbrev storage_text : StorageType → String
storage_text Streams.file = "file"
storage_text Streams.memory = "memory"

abbrev retention_text : RetentionPolicy → String
retention_text Streams.limits = "limits"
retention_text Streams.interest = "interest"
retention_text Streams.workqueue = "workqueue"

abbrev discard_text : DiscardPolicy → String
discard_text Streams.old = "old"
discard_text Streams.new = "new"

abbrev pub deliver_text : DeliverPolicy → String
deliver_text Consumers.all = "all"
deliver_text Consumers.last = "last"
deliver_text Consumers.new = "new"
deliver_text Consumers.by_start_sequence = "by_start_sequence"
deliver_text Consumers.by_start_time = "by_start_time"

abbrev pub ack_text : AckPolicy → String
ack_text Consumers.explicit = "explicit"
ack_text Consumers.none = "none"
ack_text Consumers.all = "all"

abbrev pub replay_text : ReplayPolicy → String
replay_text Consumers.instant = "instant"
replay_text Consumers.original = "original"

-- `Math.round(n / 1e9)`.
abbrev pub seconds_of : ℕ → ℕ
seconds_of n = (n + 500000000) / 1000000000

-- `sec` in the greatest unit that divides it.
pub sec_to_dur : ℕ → String
sec_to_dur sec =
    if sec % 3600 == 0
    then decimal (sec / 3600) ^+ "h"
    else if sec % 60 == 0
    then decimal (sec / 60) ^+ "m"
    else decimal sec ^+ "s"

pub ns_to_dur : Option ℤ → String
unfolding sec_to_dur
ns_to_dur none = "0s"
ns_to_dur (some (negsuc n)) = "0s"
ns_to_dur (some (pos zero)) = "0s"
ns_to_dur (some (pos (suc n))) = sec_to_dur (seconds_of (suc n))

-- `Math.round(n / 1e9)` of an integer; halves go up.
abbrev pub int_seconds_of : ℤ → ℤ
int_seconds_of (pos n) = pos (seconds_of n)
int_seconds_of (negsuc n) = neg ((n + 500000000) / 1000000000)

-- `[a-z0-9_]`.
abbrev pub is_id_char : Char → Bool
is_id_char c =
    let n = code c in (leb b'a' n && leb n b'z') || (leb b'0' n && leb n b'9') || n == b'_'

-- Characters beyond 0xFFFF are two units of a text of JavaScript, and both are replaced.
pub replace_others : String → String
replace_others String.[] = String.[]
replace_others (String.◌∷◌ c s) =
    let rest = replace_others s in
    if is_id_char c
    then String.◌∷◌ c rest
    else if ltb 65535 (code c)
    then String.◌∷◌ "_" (String.◌∷◌ "_" rest)
    else String.◌∷◌ "_" rest

pub tf_id : (String → String) → String → String
tf_id lower s = replace_others (lower s)

-- `xs.join(sep)`.
pub join : String → List String → String
join sep [] = ""
join sep (s ∷ []) = s
join sep (s ∷ (t ∷ ts)) = s ^+ (sep ^+ join sep (t ∷ ts))

-- `n ?? -1`.
abbrev pub or_minus_one : Option ℤ → String
or_minus_one none = "-1"
or_minus_one (some n) = int_text n

-- A line that is there where a text is given and not empty.
abbrev pub with_text : Option String → (String → String) → List String
with_text none f = []
with_text (some s) f = if str_eq s "" then [] else f s ∷ []

-- A line that is there where a number is given and not 0.
abbrev pub with_number : Option ℤ → (ℤ → String) → List String
with_number none f = []
with_number (some n) f = if is_nonzero n then f n ∷ [] else []

abbrev pub quoted : String → String
quoted s = "\"" ^+ (s ^+ "\"")

-- A line of a command that goes on.
abbrev pub option_line : String → String → String
option_line name v = "  --" ^+ (name ^+ (" " ^+ (v ^+ " \\")))

pub stream_cli_lines : StreamConfig → List String
stream_cli_lines c =
    ("nats stream add " ^+ (c.name ^+ " \\"))
      ∷ option_line "subjects" (quoted (join "," c.subjects))
      ∷ option_line "storage" (storage_text c.storage)
      ∷ option_line "retention" (retention_text c.retention)
      ∷ option_line "replicas" (decimal c.replicas)
      ∷ option_line "max-age" (ns_to_dur c.max_age)
      ∷ option_line "max-bytes" (or_minus_one c.max_bytes)
      ∷ option_line "max-msgs" (or_minus_one c.max_msgs)
      ∷ option_line "max-msg-size" (or_minus_one c.max_msg_size)
      ∷ option_line "discard" (discard_text (or_else c.discard Streams.old))
      ∷ option_line "dupe-window" (ns_to_dur c.duplicates)
      ∷ with_text c.description (λ d. option_line "description" (quoted d))
    ++ "  --defaults" ∷ []

pub stream_cli : StreamConfig → String
stream_cli c = join "\n" (stream_cli_lines c)

-- What `JSON.stringify` is given.
pub data Json : Type 0 where
  text : String → Json
  number : ℤ → Json
  texts : List String → Json

abbrev pub Fields : Type 0
Fields = List (String × Json)

abbrev pub number_or_minus_one : Option ℤ → Json
number_or_minus_one none = number (negsuc 0)
number_or_minus_one (some n) = number n

abbrev pub field_text : String → Option String → Fields
field_text k none = []
field_text k (some s) = if str_eq s "" then [] else (k, text s) ∷ []

abbrev pub field_number : String → Option ℤ → Fields
field_number k none = []
field_number k (some n) = if is_nonzero n then (k, number n) ∷ [] else []

pub stream_fields : StreamConfig → Fields
stream_fields c =
    ("name", text c.name) ∷ field_text "description" c.description
    ++ ("subjects", texts c.subjects)
      ∷ ("retention", text (retention_text c.retention))
      ∷ ("storage", text (storage_text c.storage))
      ∷ ("num_replicas", number (pos c.replicas))
      ∷ ("max_consumers", number (negsuc 0))
      ∷ ("max_msgs", number_or_minus_one c.max_msgs)
      ∷ ("max_bytes", number_or_minus_one c.max_bytes)
      ∷ ("max_age", number (or_else c.max_age (pos 0)))
      ∷ ("max_msg_size", number_or_minus_one c.max_msg_size)
      ∷ ("discard", text (discard_text (or_else c.discard Streams.old)))
      ∷ ("duplicate_window", number (or_else c.duplicates (pos 0)))
      ∷ []

pub stream_json : (Fields → String) → StreamConfig → String
stream_json stringify c = stringify (stream_fields c)

pub stream_tf_lines : (String → String) → StreamConfig → List String
stream_tf_lines lower c =
    ("resource \"jetstream_stream\" " ^+ (quoted (tf_id lower c.name) ^+ " {"))
      ∷ ("  name      = " ^+ quoted c.name)
      ∷ ("  subjects  = [" ^+ (join ", " (map quoted c.subjects) ^+ "]"))
      ∷ ("  storage   = " ^+ quoted (storage_text c.storage))
      ∷ ("  retention = " ^+ quoted (retention_text c.retention))
      ∷ ("  replicas  = " ^+ decimal c.replicas)
      ∷ ("  max_age   = " ^+ int_text (int_seconds_of (or_else c.max_age (pos 0))))
      ∷ ("  max_bytes = " ^+ or_minus_one c.max_bytes)
      ∷ ("  max_msgs  = " ^+ or_minus_one c.max_msgs)
      ∷ with_text c.description (λ d. "  description = " ^+ quoted d)
    ++ "}" ∷ []

pub stream_tf : (String → String) → StreamConfig → String
stream_tf lower c = join "\n" (stream_tf_lines lower c)
