-- ===== src/Streams/Forms/Subjects.antt =====
-- Subjects that are joined and split again.
use Prim.Native.Char.{Char, code}
use nats_ui.Prelude.{
  String, str_eq, char_eq, eq_of_char_eq, ◌^+◌, ◌≡◌, ◌≢◌, refl, ap, ◌∙◌, false, not, List, [], ◌∷◌,
  map, filter, All, Avoids, Bool-cases, inl, inr,
}
use text.Mathlib.TextLemmas.{cons-append, nil-append}
use nats_ui.Publisher.Placeholders.{trim}
use nats_ui.Publisher.Placeholders.Trimming.{IsTrimmed, trim-blank}
use nats_ui.Streams.Forms.{in_front, comma, split_commas, parse_subjects, join_subjects}

-- A subject as the form can show it: trimmed, not empty and without a comma.
pub record IsSubject (s : String) : Type 0 where
  pub trimmed : IsTrimmed s
  pub filled : str_eq s "" ≡ false
  pub no_comma : Avoids b',' s

is_comma-of_other : (c : Char) → code c ≢ b',' → char_eq c "," ≡ false
is_comma-of_other c h = elim (Bool-cases (char_eq c ",")) [
  | inl e ↦ absurd (h (ap code (eq_of_char_eq c "," e)))
  | inr e ↦ e
]

-- A text without a comma is one piece, also in front of one.
split-Avoids : (s : String) → Avoids b',' s → split_commas s ≡ s ∷ []
unfolding split_commas
split-Avoids String.[] h = refl
split-Avoids (String.◌∷◌ c s) h = rw (is_comma-of_other c h.0, split-Avoids s h.1) refl

split-append :
    (s t : String) → Avoids b',' s → split_commas (s ^+ String.◌∷◌ comma t) ≡ s ∷ split_commas t
unfolding split_commas
split-append String.[] t h = rw nil-append refl
split-append (String.◌∷◌ c s) t h =
    rw cons-append (rw (is_comma-of_other c h.0, split-append s t h.1) refl)

abbrev clean : List String → List String
clean ss = filter (λ t. not (str_eq t "")) (map trim ss)

clean-in_front : (ss : List String) → clean (in_front " " ss) ≡ clean ss
clean-in_front [] = unfold trim in refl
clean-in_front (s ∷ ss) = rw (trim-blank s) refl

parse_subjects-blank : (s : String) → parse_subjects (String.◌∷◌ " " s) ≡ parse_subjects s
unfolding parse_subjects split_commas
parse_subjects-blank s = clean-in_front (split_commas s)

separated : (s t : String) → (s ^+ (", " ^+ t)) ≡ (s ^+ String.◌∷◌ comma (String.◌∷◌ " " t))
separated s t =
    ap (λ x. s ^+ x)
      (cons-append comma " " t
        ∙ ap (String.◌∷◌ comma) (cons-append " " "" t ∙ ap (String.◌∷◌ " ") (nil-append t)))

parse_subjects-first :
    (s t : String) → IsSubject s → parse_subjects (s ^+ String.◌∷◌ comma t) ≡ s ∷ parse_subjects t
unfolding parse_subjects
parse_subjects-first s t h =
    rw (parse_subjects, split-append s t h.no_comma, h.trimmed, h.filled) refl

parse_subjects-one : (s : String) → IsSubject s → parse_subjects s ≡ s ∷ []
unfolding parse_subjects
parse_subjects-one s h = rw (parse_subjects, split-Avoids s h.no_comma, h.trimmed, h.filled) refl

parse_subjects-separated :
    (s t : String) → IsSubject s → parse_subjects (s ^+ (", " ^+ t)) ≡ s ∷ parse_subjects t
parse_subjects-separated s t h =
    ap parse_subjects (separated s t)
    ∙ parse_subjects-first s (String.◌∷◌ " " t) h
    ∙ ap (λ r. s ∷ r) (parse_subjects-blank t)

-- The subjects of a form that was not touched are those of the stream.
pub parse_subjects-join_subjects :
    (ss : List String) → All IsSubject ss → parse_subjects (join_subjects ss) ≡ ss
unfolding join_subjects
parse_subjects-join_subjects [] h = unfold parse_subjects split_commas trim in refl
parse_subjects-join_subjects (s ∷ []) h = parse_subjects-one s h.0
parse_subjects-join_subjects (s ∷ (t ∷ ts)) h =
    parse_subjects-separated s (join_subjects (t ∷ ts)) h.0
    ∙ ap (λ r. s ∷ r) (parse_subjects-join_subjects (t ∷ ts) h.1)
