-- ===== src/Streams/Tests.antt =====
-- Two streams, of which the first is edited.
use text.Mathlib.TextLemmas.{cons-append, nil-append}
use nats_ui.Prelude.{
  ℤ, pos, negsuc, neg, suc, int_text, true, sym, ap, ◌∙◌, inl, inr, str_eq, str_eq_iff, Bool-cases,
  chars, value-minus, if◌then◌else◌, ℕ, String, ◌≡◌, refl, false, Option, none, some, List, [], ◌∷◌,
  decimal, value, value-decimal, arith,
}
use nats_ui.Types.Streams.{StreamConfig, StreamInfo, limits, file}
use nats_ui.Publisher.Placeholders.{trim}
use nats_ui.Streams.{Explorer, select, start_edit, step, save_edit}
use nats_ui.Streams.Forms.{edit_form, update_config, parse_subjects, split_commas}
use nats_ui.Streams.Forms.Edits.{IsShown, update_config-edit_form}
use nats_ui.Streams.Selection.{save_edit-select}

abbrev config : String → Option ℤ → StreamConfig
config name age = record {
  name = name;
  description = none;
  subjects = "a.>" ∷ "b" ∷ [];
  retention = limits;
  storage = file;
  max_age = age;
  max_bytes = some (pos 2097152);
  max_msgs = none;
  max_msg_size = none;
  replicas = 3;
  discard = none;
  duplicates = none;
}

abbrev info : String → StreamInfo
info name = record {
  config = config name (some (pos 60000000000));
  state = record {
    messages = 0;
    bytes = 0;
    first_seq = 0;
    first_time = "";
    last_seq = 0;
    last_time = "";
    num_subjects = 0;
    num_deleted = 0;
  };
  cluster_id = "c";
  created = "";
  health = "ok";
}

-- `Number` of texts of integers: a text that differs from that of the number that its digits are has
-- a minus. `parseInt` of texts of digits.
abbrev number : String → ℤ
number s = let n = value s 0 in if str_eq s (decimal n) then pos n else neg n

number-int_text : (z : ℤ) → number (int_text z) ≡ z
number-int_text (pos n) =
    let same : str_eq (decimal n) (decimal n) ≡ true =
      (str_eq_iff (decimal n) (decimal n)).1 refl in
    rw (value-decimal n, same) refl
number-int_text (negsuc n) =
    let digits = value-minus (decimal (suc n)) ∙ value-decimal (suc n) in
    elim (Bool-cases (str_eq (int_text (negsuc n)) (decimal (suc n)))) [
      | inl e ↦
          let same = (str_eq_iff (int_text (negsuc n)) (decimal (suc n))).0 e in
          absurd (
            omega (
              arith,
              ap chars (sym (cons-append "-" "" (decimal (suc n))) ∙ same),
              ap chars (nil-append (decimal (suc n))),
            ))
      | inr e ↦ rw (digits, e) refl
    ]

abbrev parse_int : String → Option ℕ
parse_int s = some (value s 0)

parse_int-decimal : (n : ℕ) → parse_int (decimal n) ≡ some n
parse_int-decimal n = λ i. some (value-decimal n i)

subject_tests : parse_subjects " a , ,b" ≡ "a" ∷ "b" ∷ []
unfolding parse_subjects split_commas trim
subject_tests = refl

is_subjects : IsShown (config "s" (some (pos 60000000000)))
unfolding trim
is_subjects = record {
  description = tt;
  subjects = (
    record { trimmed = refl; filled = refl; no_comma = ground arith },
    (record { trimmed = refl; filled = refl; no_comma = ground arith }, tt),
  );
  replicas = omega arith;
  max_age = omega arith;
  max_bytes = omega arith;
  max_msgs = tt;
}

update_config-edit_form_example :
    update_config number parse_int
      (edit_form (config "s" (some (pos 60000000000))))
      (config "s" (some (pos 60000000000)))
    ≡ config "s" (some (pos 60000000000))
update_config-edit_form_example =
    update_config-edit_form number number-int_text parse_int parse_int-decimal
      (config "s" (some (pos 60000000000))) is_subjects

abbrev explorer : Explorer
explorer = record { selected_stream = none; filter = ""; show_create = false; detail = none }

abbrev streams : List StreamInfo
streams = info "s" ∷ info "t" ∷ []

save_edit-select_example :
    save_edit number parse_int streams
      (step streams (step streams (step streams explorer (select "s")) start_edit) (select "t"))
    ≡ some ("t", update_config number parse_int (edit_form (info "s").config) (info "t").config)
save_edit-select_example =
    save_edit-select number parse_int streams explorer (info "s") (info "t") refl refl refl refl
