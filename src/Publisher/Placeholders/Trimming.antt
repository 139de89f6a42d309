-- ===== src/Publisher/Placeholders/Trimming.antt =====
-- What `trim` leaves alone.
use Prim.Native.Char.{Char}
use nats_ui.Prelude.{
  String, str_eq, str_eq_iff, ◌^+◌, ◌≡◌, refl, sym, ap, ◌∙◌, ◌⊎◌, inl, inr, false, ◌&&◌, Bool-cases,
}
use text.Mathlib.TextLemmas.{cons-append, nil-append, cons-ne-nil}
use nats_ui.Publisher.Placeholders.{is_space, trim, trim_start, trim_end}

abbrev pub IsTrimmed : String → Type 0
IsTrimmed s = trim s ≡ s

trim_start-of_other :
    (c : Char) (s : String) → is_space c ≡ false → trim_start (String.◌∷◌ c s) ≡ String.◌∷◌ c s
unfolding trim_start
trim_start-of_other c s e = rw e refl

trim_end-of_other :
    (c : Char) (s : String)
    → is_space c ≡ false
    → trim_end (String.◌∷◌ c s) ≡ String.◌∷◌ c (trim_end s)
unfolding trim_end
trim_end-of_other c s e = rw e refl

-- What is left at the start is nothing or begins with another character than a space.
StartsTight : String → Type 0
StartsTight s =
    (s ≡ String.[]) ⊎ ((c : Char) × (t : String) × (s ≡ String.◌∷◌ c t) × (is_space c ≡ false))

trim_start-StartsTight : (s : String) → StartsTight (trim_start s)
unfolding trim_start StartsTight
trim_start-StartsTight String.[] = inl refl
trim_start-StartsTight (String.◌∷◌ c s) = elim (Bool-cases (is_space c)) [
  | inl e ↦ rw e (trim_start-StartsTight s)
  | inr e ↦ rw e (inr (c, s, refl, e))
]

trim_end-trim_end : (s : String) → trim_end (trim_end s) ≡ trim_end s
unfolding trim_end
trim_end-trim_end String.[] = refl
trim_end-trim_end (String.◌∷◌ c s) = elim (Bool-cases (is_space c && str_eq (trim_end s) "")) [
  | inl e ↦ rw e refl
  | inr e ↦ rw (e, trim_end, trim_end-trim_end s, e) refl
]

-- Trimming twice is trimming once.
pub trim-IsTrimmed : (s : String) → IsTrimmed (trim s)
unfolding trim StartsTight
trim-IsTrimmed s = elim (trim_start-StartsTight s) [
  | inl e ↦ rw e (unfold trim_start trim_end in refl)
  | inr (c, t, e, tight) ↦
      rw
        (
          e,
          trim_end-of_other c t tight,
          trim_start-of_other c (trim_end t) tight,
          trim_end-of_other c (trim_end t) tight,
          trim_end-trim_end t,
        )
        refl
]

trim_end-of_IsTrimmed : (s : String) → IsTrimmed s → trim_end s ≡ s
unfolding trim
trim_end-of_IsTrimmed s h = ap trim_end (sym h) ∙ trim_end-trim_end (trim_start s) ∙ h

pub cons_filled : (c : Char) (s : String) → str_eq (String.◌∷◌ c s) "" ≡ false
cons_filled c s = elim (Bool-cases (str_eq (String.◌∷◌ c s) "")) [
  | inl e ↦ absurd (cons-ne-nil c s ((str_eq_iff (String.◌∷◌ c s) "").0 e))
  | inr e ↦ e
]

append-of_filled : (s t : String) → str_eq t "" ≡ false → str_eq (s ^+ t) "" ≡ false
append-of_filled String.[] t e = rw nil-append e
append-of_filled (String.◌∷◌ c s) t e = rw cons-append (cons_filled c (s ^+ t))

trim_end-append : (s t : String) → trim_end t ≡ t → str_eq t "" ≡ false → trim_end (s ^+ t) ≡ s ^+ t
unfolding trim_end
trim_end-append String.[] t h e = rw nil-append h
trim_end-append (String.◌∷◌ c s) t h e = rw cons-append (elim (Bool-cases (is_space c)) [
  | inl space ↦ rw (trim_end, trim_end-append s t h e, append-of_filled s t e, space) refl
  | inr other ↦ trim_end-of_other c (s ^+ t) other ∙ ap (String.◌∷◌ c) (trim_end-append s t h e)
])

-- A text that begins and ends with what is no space is trimmed.
pub append-IsTrimmed :
    (c : Char) (s t : String)
    → is_space c ≡ false
    → IsTrimmed t
    → str_eq t "" ≡ false
    → IsTrimmed (String.◌∷◌ c (s ^+ t))
unfolding trim
append-IsTrimmed c s t other h e =
    rw
      (
        trim_start-of_other c (s ^+ t) other,
        trim_end-of_other c (s ^+ t) other,
        trim_end-append s t (trim_end-of_IsTrimmed t h) e,
      )
      refl

-- A blank in front is trimmed away.
pub trim-blank : (s : String) → trim (String.◌∷◌ " " s) ≡ trim s
unfolding trim trim_start
trim-blank s = refl
