-- ===== src/Export/OfConsumer.antt =====
-- Consumers in frontend/src/components/export/ConfigExport.tsx: the command, the JSON and the
-- Terraform resource, and which text the dialog shows.
use nats_ui.Prelude.{
  ℤ, pos, int_text, ℕ, String, str_eq, ◌^+◌, decimal, Bool, true, false, Option, none, some,
  or_else, List, [], ◌∷◌, ◌++◌, if◌then◌else◌,
}
use nats_ui.Types.Streams.{StreamConfig}
use nats_ui.Types.Consumers
use nats_ui.Types.Consumers.{ConsumerConfig, DeliverPolicy}
use nats_ui.Export.{
  Fields, text, number, deliver_text, ack_text, replay_text, ns_to_dur, int_seconds_of, tf_id, join,
  or_minus_one, number_or_minus_one, with_text, with_number, quoted, option_line, field_text,
  field_number, stream_cli, stream_json, stream_tf,
}

-- A count that may be absent, as an integer.
abbrev as_int : Option ℕ → Option ℤ
as_int none = none
as_int (some n) = some (pos n)

pub deliver_cli : ConsumerConfig → String
deliver_cli c = elim c.deliver_policy [
  | Consumers.by_start_sequence ↦ decimal (or_else c.opt_start_seq 1)
  | Consumers.by_start_time ↦ or_else c.opt_start_time "all"
  | p ↦ deliver_text p
]

-- `a || b` of a text that may be absent.
abbrev or_text : Option String → String → String
or_text none b = b
or_text (some a) b = if str_eq a "" then b else a

abbrev pub name_of : ConsumerConfig → String
name_of c = or_text c.durable_name c.name

abbrev target_line : Option String → String
target_line o = elim (with_text o (λ s. option_line "target" (quoted s))) [
  | [] ↦ "  --pull \\"
  | line ∷ rest ↦ line
]

pub consumer_cli_lines : String → ConsumerConfig → List String
consumer_cli_lines stream c =
    ("nats consumer add " ^+ (stream ^+ (" " ^+ (name_of c ^+ " \\"))))
      ∷ target_line c.deliver_subject
      ∷ option_line "deliver" (deliver_cli c)
      ∷ option_line "ack" (ack_text c.ack_policy)
      ∷ option_line "replay" (replay_text c.replay_policy)
      ∷ option_line "filter" (quoted (or_else c.filter_subject ""))
      ∷ with_number (as_int c.ack_wait) (λ n. option_line "ack-wait" (ns_to_dur (some n)))
    ++ option_line "max-deliver" (or_minus_one c.max_deliver)
      ∷ with_number c.max_ack_pending (λ n. option_line "max-pending" (int_text n))
    ++ with_text c.deliver_group (λ g. option_line "deliver-group" (quoted g))
    ++ with_text c.description (λ d. option_line "description" (quoted d))
    ++ "  --defaults" ∷ []

pub consumer_cli : String → ConsumerConfig → String
consumer_cli stream c = join "\n" (consumer_cli_lines stream c)

pub consumer_fields : ConsumerConfig → Fields
consumer_fields c =
    ("durable_name", text (name_of c)) ∷ field_text "description" c.description
    ++ field_text "deliver_subject" c.deliver_subject
    ++ field_text "deliver_group" c.deliver_group
    ++ ("deliver_policy", text (deliver_text c.deliver_policy))
      ∷ field_number "opt_start_seq" (as_int c.opt_start_seq)
    ++ field_text "opt_start_time" c.opt_start_time
    ++ ("ack_policy", text (ack_text c.ack_policy))
      ∷ ("ack_wait", number (pos (or_else c.ack_wait 0)))
      ∷ ("max_deliver", number_or_minus_one c.max_deliver)
      ∷ field_text "filter_subject" c.filter_subject
    ++ ("replay_policy", text (replay_text c.replay_policy))
      ∷ ("max_ack_pending", number (or_else c.max_ack_pending (pos 0)))
      ∷ []

pub consumer_json : (Fields → String) → ConsumerConfig → String
consumer_json stringify c = stringify (consumer_fields c)

abbrev bool_text : Bool → String
bool_text true = "true"
bool_text false = "false"

abbrev is_policy : DeliverPolicy → DeliverPolicy → Bool
is_policy p q = str_eq (deliver_text p) (deliver_text q)

abbrev max_delivery_line : Option ℤ → List String
max_delivery_line none = []
max_delivery_line (some n) = ("  max_delivery  = " ^+ int_text n) ∷ []

pub consumer_tf_lines : (String → String) → String → ConsumerConfig → List String
consumer_tf_lines lower stream c =
    ("resource \"jetstream_consumer\" "
        ^+ (quoted (tf_id lower (stream ^+ ("_" ^+ name_of c))) ^+ " {"))
      ∷ ("  stream_id     = jetstream_stream." ^+ (tf_id lower stream ^+ ".id"))
      ∷ ("  durable_name  = " ^+ quoted (name_of c))
      ∷ ("  deliver_all   = " ^+ bool_text (is_policy c.deliver_policy Consumers.all))
      ∷ ("  deliver_last  = " ^+ bool_text (is_policy c.deliver_policy Consumers.last))
      ∷ ("  deliver_new   = " ^+ bool_text (is_policy c.deliver_policy Consumers.new))
      ∷ ("  ack_policy    = " ^+ quoted (ack_text c.ack_policy))
      ∷ ("  replay_policy = " ^+ quoted (replay_text c.replay_policy))
      ∷ with_text c.filter_subject (λ f. "  filter_subject = " ^+ quoted f)
    ++ max_delivery_line c.max_deliver
    ++ with_number (as_int c.ack_wait) (λ n. "  ack_wait      = " ^+ int_text (int_seconds_of n))
    ++ "}" ∷ []

pub consumer_tf : (String → String) → String → ConsumerConfig → String
consumer_tf lower stream c = join "\n" (consumer_tf_lines lower stream c)

-- `Format`, and what the dialog is opened for.
pub data Format : Type 0 where
  cli json terraform : Format

pub data Exported : Type 0 where
  stream : StreamConfig → Exported
  consumer : String → ConsumerConfig → Exported

-- `gen[fmt]`.
pub gen : (Fields → String) → (String → String) → Exported → Format → String
gen stringify lower (stream c) cli = stream_cli c
gen stringify lower (stream c) json = stream_json stringify c
gen stringify lower (stream c) terraform = stream_tf lower c
gen stringify lower (consumer s c) cli = consumer_cli s c
gen stringify lower (consumer s c) json = consumer_json stringify c
gen stringify lower (consumer s c) terraform = consumer_tf lower s c
