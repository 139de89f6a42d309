-- ===== src/Export/Identifiers.antt =====
-- The names of Terraform resources.
use Prim.Native.Char.{code}
use nats_ui.Prelude.{String, ◌≡◌, refl, ap, ◌∙◌, inl, inr, true, Bool-cases, ltb}
use nats_ui.Export.{is_id_char, replace_others, tf_id}

-- A text of lower-case letters, digits and underscores.
abbrev pub IsIdentifier : String → Type 0
IsIdentifier String.[] = Unit
IsIdentifier (String.◌∷◌ c s) = (is_id_char c ≡ true) × IsIdentifier s

replace_others-IsIdentifier : (s : String) → IsIdentifier (replace_others s)
unfolding replace_others
replace_others-IsIdentifier String.[] = tt
replace_others-IsIdentifier (String.◌∷◌ c s) = elim (Bool-cases (is_id_char c)) [
  | inl e ↦ rw e (e, replace_others-IsIdentifier s)
  | inr e ↦ elim (Bool-cases (ltb 65535 (code c))) [
    | inl wide ↦ rw (e, wide) (refl, (refl, replace_others-IsIdentifier s))
    | inr narrow ↦ rw (e, narrow) (refl, replace_others-IsIdentifier s)
  ]
]

replace_others-of_identifier : (s : String) → IsIdentifier s → replace_others s ≡ s
unfolding replace_others
replace_others-of_identifier String.[] h = refl
replace_others-of_identifier (String.◌∷◌ c s) h = rw (h.0, replace_others-of_identifier s h.1) refl

-- Where `toLowerCase` leaves lower-case letters, digits and underscores alone, the name of a resource
-- consists of these, whatever the name of the stream, and naming it again gives the same name.
pub tf_id-IsIdentifier :
    (lower : String → String)
    → ((s : String) → IsIdentifier s → lower s ≡ s)
    → (s : String) → IsIdentifier (tf_id lower s) × (tf_id lower (tf_id lower s) ≡ tf_id lower s)
unfolding tf_id
tf_id-IsIdentifier lower keeps s =
    let id = replace_others-IsIdentifier (lower s) in
    (
      id,
      ap replace_others (keeps (replace_others (lower s)) id)
          ∙ replace_others-of_identifier (replace_others (lower s)) id,
    )
