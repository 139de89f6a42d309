-- ===== src/Streams/Forms.antt =====
-- The forms of frontend/src/components/streams/StreamExplorer.tsx that create and edit a stream.
-- `number` is `Number` of the text of a number, and `parse_int` is `parseInt`, `none` for a text that
-- is no number. Seconds and megabytes are rounded as `Math.round` does.
pub mod Subjects
pub mod Edits
use Prim.Native.Char.{Char}
use nats_ui.Prelude.{
  ℤ, pos, negsuc, neg, int_text, scale, is_nonzero, ℕ, zero, suc, ◌+◌, ◌*◌, ◌/◌, String, str_eq,
  char_eq, ◌^+◌, decimal, not, Option, none, some, List, [], ◌∷◌, map, filter, if◌then◌else◌,
}
use nats_ui.Types.Streams.{StreamConfig, StorageType, RetentionPolicy, file, limits}
use nats_ui.Publisher.Placeholders.{trim}

abbrev pub in_front : Char → List String → List String
in_front c [] = String.◌∷◌ c String.[] ∷ []
in_front c (s ∷ ss) = String.◌∷◌ c s ∷ ss

abbrev pub comma : Char
comma = ","

-- `s.split(',')`.
unfoldable pub split_commas : String → List String
split_commas String.[] = "" ∷ []
split_commas (String.◌∷◌ c s) =
    let rest = split_commas s in if char_eq c "," then "" ∷ rest else in_front c rest

-- The subjects of a text: `split(',').map(trim).filter(Boolean)`.
unfoldable pub parse_subjects : String → List String
parse_subjects s = filter (λ t. not (str_eq t "")) (map trim (split_commas s))

-- `subjects.join(', ')`.
pub join_subjects : List String → String
join_subjects [] = ""
join_subjects (s ∷ []) = s
join_subjects (s ∷ (t ∷ ts)) = s ^+ (", " ^+ join_subjects (t ∷ ts))

pub record EditForm : Type 0 where
  pub description : String
  pub subjects : String
  pub replicas : String
  pub max_age : String
  pub max_bytes : String
  pub max_msgs : String

abbrev pub second : ℕ
second = 1000000000

abbrev pub megabyte : ℕ
megabyte = 1048576

-- `Math.round(n / 1e9)`, and the same for megabytes.
abbrev pub to_seconds : ℕ → ℕ
to_seconds n = (n + 500000000) / 1000000000

abbrev pub to_megabytes : ℕ → ℕ
to_megabytes n = (n + 524288) / 1048576

-- The same for integers; halves go up.
abbrev pub int_seconds : ℤ → ℤ
int_seconds (pos n) = pos (to_seconds n)
int_seconds (negsuc n) = neg ((n + 500000000) / 1000000000)

abbrev pub int_megabytes : ℤ → ℤ
int_megabytes (pos n) = pos (to_megabytes n)
int_megabytes (negsuc n) = neg ((n + 524288) / 1048576)

-- `n ? String(f(n)) : ''`.
abbrev pub number_text : (ℤ → ℤ) → Option ℤ → String
number_text f none = ""
number_text f (some z) = if is_nonzero z then int_text (f z) else ""

abbrev pub text_or_empty : Option String → String
text_or_empty none = ""
text_or_empty (some s) = s

-- The form at first.
pub edit_form : StreamConfig → EditForm
edit_form c = record {
  description = text_or_empty c.description;
  subjects = join_subjects c.subjects;
  replicas = decimal c.replicas;
  max_age = number_text int_seconds c.max_age;
  max_bytes = number_text int_megabytes c.max_bytes;
  max_msgs = number_text (λ z. z) c.max_msgs;
}

-- `v || undefined`.
abbrev pub filled : String → Option String
filled v = if str_eq v "" then none else some v

-- `v ? Number(v) * unit : undefined`.
abbrev pub scaled : (String → ℤ) → ℕ → String → Option ℤ
scaled number unit v = if str_eq v "" then none else some (scale (number v) unit)

-- `parseInt(v, 10) || 1`.
abbrev pub or_one : Option ℕ → ℕ
or_one none = 1
or_one (some zero) = 1
or_one (some (suc n)) = suc n

-- The configuration that an edit asks for.
pub update_config : (String → ℤ) → (String → Option ℕ) → EditForm → StreamConfig → StreamConfig
update_config number parse_int f c = record c {
  description = filled (trim f.description);
  subjects = parse_subjects f.subjects;
  replicas = or_one (parse_int f.replicas);
  max_age = scaled number 1000000000 f.max_age;
  max_bytes = scaled number 1048576 f.max_bytes;
  max_msgs = scaled number 1 f.max_msgs;
}

pub record CreateForm : Type 0 where
  pub name : String
  pub fields : EditForm
  pub storage : StorageType
  pub retention : RetentionPolicy

pub initial_create_form : CreateForm
initial_create_form = record {
  name = "";
  fields = record {
    description = "";
    subjects = "";
    replicas = "1";
    max_age = "";
    max_bytes = "";
    max_msgs = "";
  };
  storage = file;
  retention = limits;
}

-- The button is disabled where the name is blank.
pub create_config : (String → ℤ) → (String → Option ℕ) → CreateForm → Option StreamConfig
create_config number parse_int f =
    if str_eq (trim f.name) ""
    then none
    else some (record {
      name = trim f.name;
      description = filled (trim f.fields.description);
      subjects = parse_subjects f.fields.subjects;
      retention = f.retention;
      storage = f.storage;
      max_age = scaled number 1000000000 f.fields.max_age;
      max_bytes = scaled number 1048576 f.fields.max_bytes;
      max_msgs = scaled number 1 f.fields.max_msgs;
      max_msg_size = none;
      replicas = or_one (parse_int f.fields.replicas);
      discard = none;
      duplicates = none;
    })
