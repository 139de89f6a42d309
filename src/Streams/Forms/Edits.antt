-- ===== src/Streams/Forms/Edits.antt =====
-- What an edit of a stream does with the fields that were not touched.
use text.Mathlib.TextLemmas.{cons-append}
use nats_ui.Prelude.{
  chars, str_eq_iff, Bool-cases, inl, inr, sym, ◌/◌, ℤ, pos, negsuc, neg, int_text, scale,
  is_nonzero, true, decimal-filled, ℕ, zero, suc, ◌+◌, ◌*◌, ◌%◌, ◌<◌, String, str_eq, decimal, ◌≡◌,
  refl, ap, ◌∙◌, false, Option, none, some, All, arith,
}
use nats_ui.Types.Streams.{StreamConfig}
use nats_ui.Publisher.Placeholders.{trim}
use nats_ui.Publisher.Placeholders.Trimming.{IsTrimmed}
use nats_ui.Streams.Forms.{
  second, megabyte, int_seconds, int_megabytes, number_text, text_or_empty, edit_form, filled,
  scaled, or_one, update_config,
}
use nats_ui.Streams.Forms.Subjects.{IsSubject, parse_subjects-join_subjects}

-- A number that the form shows without rounding: absent, or a multiple of the unit that is not 0.
abbrev pub IsWhole : ℕ → Option ℤ → Type 0
IsWhole unit none = Unit
IsWhole unit (some (pos n)) = (0 < n) × (n % unit ≡ 0)
IsWhole unit (some (negsuc n)) = suc n % unit ≡ 0

-- A description that the form gives back: absent, or trimmed and not empty.
abbrev pub IsPlain : Option String → Type 0
IsPlain none = Unit
IsPlain (some s) = IsTrimmed s × (str_eq s "" ≡ false)

-- A configuration that the form shows in full.
pub record IsShown (c : StreamConfig) : Type 0 where
  pub description : IsPlain c.description
  pub subjects : All IsSubject c.subjects
  pub replicas : 0 < c.replicas
  pub max_age : IsWhole second c.max_age
  pub max_bytes : IsWhole megabyte c.max_bytes
  pub max_msgs : IsWhole 1 c.max_msgs

plain-filled : (o : Option String) → IsPlain o → filled (trim (text_or_empty o)) ≡ o
plain-filled none h = unfold trim in refl
plain-filled (some s) h = rw (h.0, h.1) refl

or_one-of_positive : (n : ℕ) → 0 < n → or_one (some n) ≡ n
or_one-of_positive zero h = absurd (omega arith)
or_one-of_positive (suc n) h = refl

int_text-filled : (z : ℤ) → str_eq (int_text z) "" ≡ false
int_text-filled (pos n) = decimal-filled n
int_text-filled (negsuc n) = elim (Bool-cases (str_eq (int_text (negsuc n)) "")) [
  | inl e ↦
      let blank = (str_eq_iff (int_text (negsuc n)) "").0 e in
      absurd (omega (arith, ap chars (sym (cons-append "-" "" (decimal (suc n))) ∙ blank)))
  | inr e ↦ e
]

scale-neg : (q unit : ℕ) → scale (neg q) unit ≡ neg (q * unit)
scale-neg zero unit = let none_left : zero * unit ≡ 0 = omega arith in rw none_left refl
scale-neg (suc q) unit = refl

scale-one : (z : ℤ) → scale z 1 ≡ z
scale-one (pos n) = ap pos (omega arith)
scale-one (negsuc n) = let same : suc n * 1 ≡ suc n = omega arith in ap neg same

module _ (number : String → ℤ) (reads : (z : ℤ) → number (int_text z) ≡ z) where
  scaled-number_text :
      (unit : ℕ) (f : ℤ → ℤ) (z : ℤ)
      → is_nonzero z ≡ true
      → scaled number unit (number_text f (some z)) ≡ some (scale (f z) unit)
  scaled-number_text unit f z h = rw (h, int_text-filled (f z), reads (f z)) refl

  whole-seconds :
      (o : Option ℤ) → IsWhole second o → scaled number second (number_text int_seconds o) ≡ o
  whole-seconds none h = refl
  whole-seconds (some (pos zero)) h = absurd (omega (arith, h.0))
  whole-seconds (some (pos (suc n))) h =
      scaled-number_text second int_seconds (pos (suc n)) refl
      ∙ ap (λ m. some (pos m)) (omega (arith, h.1))
  whole-seconds (some (negsuc n)) h =
      scaled-number_text second int_seconds (negsuc n) refl
      ∙ ap some (scale-neg ((n + 500000000) / 1000000000) second)
      ∙ (let whole : (n + 500000000) / 1000000000 * second ≡ suc n = omega (arith, h) in
          ap (λ m. some (neg m)) whole)

  whole-megabytes :
      (o : Option ℤ) → IsWhole megabyte o → scaled number megabyte (number_text int_megabytes o) ≡ o
  whole-megabytes none h = refl
  whole-megabytes (some (pos zero)) h = absurd (omega (arith, h.0))
  whole-megabytes (some (pos (suc n))) h =
      scaled-number_text megabyte int_megabytes (pos (suc n)) refl
      ∙ ap (λ m. some (pos m)) (omega (arith, h.1))
  whole-megabytes (some (negsuc n)) h =
      scaled-number_text megabyte int_megabytes (negsuc n) refl
      ∙ ap some (scale-neg ((n + 524288) / 1048576) megabyte)
      ∙ (let whole : (n + 524288) / 1048576 * megabyte ≡ suc n = omega (arith, h) in
          ap (λ m. some (neg m)) whole)

  whole-messages : (o : Option ℤ) → IsWhole 1 o → scaled number 1 (number_text (λ z. z) o) ≡ o
  whole-messages none h = refl
  whole-messages (some (pos zero)) h = absurd (omega (arith, h.0))
  whole-messages (some (pos (suc n))) h =
      scaled-number_text 1 (λ z. z) (pos (suc n)) refl ∙ ap some (scale-one (pos (suc n)))
  whole-messages (some (negsuc n)) h =
      scaled-number_text 1 (λ z. z) (negsuc n) refl ∙ ap some (scale-one (negsuc n))

  -- Where `Number` and `parseInt` read what `String` writes, an edit that touches nothing changes
  -- nothing, if the form shows the configuration in full: subjects and description are trimmed and
  -- not empty, no subject has a comma, and the limits are whole seconds and megabytes and not 0. No
  -- limit, -1, is shown in full as a number of messages only.
  pub update_config-edit_form :
      (parse_int : String → Option ℕ)
      → ((n : ℕ) → parse_int (decimal n) ≡ some n)
      → (c : StreamConfig) → IsShown c
      → update_config number parse_int (edit_form c) c ≡ c
  unfolding update_config edit_form
  update_config-edit_form parse_int parses c h = λ i. record c {
    description = plain-filled c.description h.description i;
    subjects = parse_subjects-join_subjects c.subjects h.subjects i;
    replicas = (ap or_one (parses c.replicas) ∙ or_one-of_positive c.replicas h.replicas) i;
    max_age = whole-seconds c.max_age h.max_age i;
    max_bytes = whole-megabytes c.max_bytes h.max_bytes i;
    max_msgs = whole-messages c.max_msgs h.max_msgs i;
  }

  -- A stream without a limit on its size, which is -1, gets the limit 0 by an edit that does not touch
  -- it.
  update_config-max_bytes :
      (parse_int : String → Option ℕ) (c : StreamConfig)
      → c.max_bytes ≡ some (negsuc 0)
      → (update_config number parse_int (edit_form c) c).max_bytes ≡ some (pos 0)
  unfolding update_config edit_form
  update_config-max_bytes parse_int c e =
      ap (λ o. scaled number megabyte (number_text int_megabytes o)) e
      ∙ scaled-number_text megabyte int_megabytes (negsuc 0) refl
