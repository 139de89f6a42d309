-- ===== src/Publisher/Placeholders/Values.antt =====
-- The values that a substitution needs: those of the custom placeholders that the user is asked for.
use nats_ui.Prelude.{
  ℕ, String, str_eq, str_eq_iff, ◌^+◌, ◌≡◌, refl, ◌∙◌, ap, true, false, not, inl, inr, or_else,
  List, [], ◌∷◌, ◌++◌, any, filter, All, All-append_left, All-append_right, Dict, lookup,
  Bool-cases,
}
use mathlib.Core.Path.{ap₂}
use nats_ui.Publisher.Placeholders.{
  Fresh, after_first, Piece, plain, hole, pieces_of, trim, is_seq_var, is_fresh_var, is_builtin_var,
  braces, resolve, fill, substitute, tokens, unique_from, detect_placeholders, custom_placeholders,
}
use nats_ui.Publisher.Placeholders.Laws.{print, print-pieces_of}

All-any :
    (P : String → Type 0) (x : String) (seen : List String)
    → any (λ y. str_eq y x) seen ≡ true
    → All P seen
    → P x
All-any P x [] e h = cc
All-any P x (y ∷ seen) e h = elim (Bool-cases (str_eq y x)) [
  | inl same ↦ let eq : y ≡ x = (str_eq_iff y x).0 same in rw (← eq) h.0
  | inr other ↦ All-any P x seen (rw other at e) h.1
]

All-unique_from :
    (P : String → Type 0) (seen xs : List String)
    → All P (unique_from seen xs)
    → All P seen × All P xs
unfolding unique_from
All-unique_from P seen [] h = (h, tt)
All-unique_from P seen (x ∷ xs) h = elim (Bool-cases (any (λ y. str_eq y x) seen)) [
  | inl e ↦
      let (old, new) = All-unique_from P seen xs (rw e at h) in (old, (All-any P x seen e old, new))
  | inr e ↦
      let (old, new) = All-unique_from P (seen ++ x ∷ []) xs (rw e at h) in
      (All-append_left P seen (x ∷ []) old, ((All-append_right P seen (x ∷ []) old).0, new))
]

-- What holds of every distinct placeholder of a text holds of each one.
pub All-detect :
    (P : String → Type 0) (text : String)
    → All P (detect_placeholders text)
    → All P (tokens (pieces_of text))
unfolding detect_placeholders
All-detect P text h = (All-unique_from P [] (tokens (pieces_of text)) h).1

-- Two lists of values agree on a placeholder.
abbrev pub Agrees : Dict String → Dict String → String → Type 0
Agrees vars vars' t = lookup t vars ≡ lookup t vars'

abbrev pub AgreesIfCustom : Dict String → Dict String → String → Type 0
AgreesIfCustom vars vars' t = is_builtin_var t ≡ false → lookup t vars ≡ lookup t vars'

All-filter_custom :
    (vars vars' : Dict String) (xs : List String)
    → All (Agrees vars vars') (filter (λ t. not (is_builtin_var t)) xs)
    → All (AgreesIfCustom vars vars') xs
All-filter_custom vars vars' [] h = tt
All-filter_custom vars vars' (x ∷ xs) h = elim (Bool-cases (is_builtin_var x)) [
  | inl e ↦ (λ custom. cc, All-filter_custom vars vars' xs (rw e at h))
  | inr e ↦ let (first, rest) = rw e at h in (λ custom. first, All-filter_custom vars vars' xs rest)
]

not_builtin :
    (t : String) → is_seq_var t ≡ false → is_fresh_var t ≡ false → is_builtin_var t ≡ false
unfolding is_builtin_var
not_builtin t e f = rw (e, f) refl

resolve-AgreesIfCustom :
    (fresh : String → String) (vars vars' : Dict String) (seq : ℕ) (t : String)
    → AgreesIfCustom vars vars' t
    → resolve fresh vars seq t ≡ resolve fresh vars' seq t
unfolding resolve
resolve-AgreesIfCustom fresh vars vars' seq t h = elim (Bool-cases (is_seq_var t)) [
  | inl e ↦ rw e refl
  | inr e ↦ elim (Bool-cases (is_fresh_var t)) [
    | inl f ↦ rw (e, f) refl
    | inr f ↦ rw (e, f) (ap (λ o. or_else o (braces t)) (h (not_builtin t e f)))
  ]
]

pub fill-AgreesIfCustom :
    (fresh : Fresh) (vars vars' : Dict String) (seq : ℕ) (ps : List Piece)
    → All (AgreesIfCustom vars vars') (tokens ps)
    → fill fresh vars seq ps ≡ fill fresh vars' seq ps
unfolding fill tokens
fill-AgreesIfCustom fresh vars vars' seq [] h = refl
fill-AgreesIfCustom fresh vars vars' seq (plain c ∷ ps) h =
    ap (String.◌∷◌ c) (fill-AgreesIfCustom fresh vars vars' seq ps h)
fill-AgreesIfCustom fresh vars vars' seq (hole body ∷ ps) h =
    ap₂ (λ a b. a ^+ b) (resolve-AgreesIfCustom (fresh 0) vars vars' seq (trim body) h.0)
      (fill-AgreesIfCustom (after_first fresh) vars vars' seq ps h.1)

-- Values that agree on the custom placeholders of the form agree on all that occur in it.
pub All-custom :
    (subject payload : String) (vars vars' : Dict String)
    → All (Agrees vars vars') (custom_placeholders subject payload)
    → All (AgreesIfCustom vars vars') (tokens (pieces_of subject))
      × All (AgreesIfCustom vars vars') (tokens (pieces_of payload))
unfolding custom_placeholders
All-custom subject payload vars vars' h =
    let P : String → Type 0 = AgreesIfCustom vars vars' in
    let found : List String = detect_placeholders subject in
    let both =
      (All-unique_from P [] (found ++ detect_placeholders payload)
        (All-filter_custom vars vars' _ h)).1 in
    (
      All-detect P subject (All-append_left P found (detect_placeholders payload) both),
      All-detect P payload (All-append_right P found (detect_placeholders payload) both),
    )

fill_plain :
    (fresh : Fresh) (vars : Dict String) (seq : ℕ) (ps : List Piece)
    → All (λ t. true ≡ false) (tokens ps)
    → fill fresh vars seq ps ≡ print ps
unfolding fill tokens
fill_plain fresh vars seq [] h = refl
fill_plain fresh vars seq (plain c ∷ ps) h = ap (String.◌∷◌ c) (fill_plain fresh vars seq ps h)
fill_plain fresh vars seq (hole body ∷ ps) h = absurd (let no : true ≡ false = h.0 in cc)

-- A text in which no placeholder is detected is sent as it is.
pub substitute_without_placeholders :
    (fresh : Fresh) (text : String) (vars : Dict String) (seq : ℕ)
    → detect_placeholders text ≡ []
    → substitute fresh text vars seq ≡ text
unfolding substitute
substitute_without_placeholders fresh text vars seq e =
    fill_plain fresh vars seq (pieces_of text) (All-detect (λ t. true ≡ false) text (rw e tt))
    ∙ print-pieces_of text
