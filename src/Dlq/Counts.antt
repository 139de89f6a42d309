-- ===== src/Dlq/Counts.antt =====
-- The counts beside the filter, and what the filter shows.
use nats_ui.Prelude.{
  ◌+◌, String, ◌≡◌, refl, ap, Option, or_else, List, [], ◌∷◌, length, filter, arith, Bool-cases,
  ◌⊎◌, inl, inr, if◌then◌else◌,
}
use mathlib.Core.Path.{ap₂}
use nats_ui.Types.DeadLetters.{DeadLetterType, max_deliver, terminated, DeadLetter}
use nats_ui.Dlq.{TypeFilter, every, only, has_type, is_shown, events, total, count_type}

type-cases : (t : DeadLetterType) → (t ≡ max_deliver) ⊎ (t ≡ terminated)
type-cases max_deliver = inl refl
type-cases terminated = inr refl

count-sum :
    (all : List DeadLetter)
    → length (filter (has_type (only max_deliver)) all)
        + length (filter (has_type (only terminated)) all)
      ≡ length all
count-sum [] = refl
count-sum (e ∷ all) = elim (type-cases e.type) [
  | inl t ↦ rw (t) (omega (arith, count-sum all))
  | inr t ↦ rw (t) (omega (arith, count-sum all))
]

is_shown-blank :
    (lower : String → String) (f : TypeFilter) (e : DeadLetter)
    → is_shown lower f "" e ≡ has_type f e
unfolding is_shown
is_shown-blank lower f e = elim (Bool-cases (has_type f e)) [
  | inl t ↦ rw t refl
  | inr t ↦ rw t refl
]

shown_without_stream :
    (lower : String → String) (f : TypeFilter) (all : List DeadLetter)
    → filter (is_shown lower f "") all ≡ filter (has_type f) all
shown_without_stream lower f [] = refl
shown_without_stream lower f (e ∷ all) =
    ap₂ (λ b r. if b then e ∷ r else r) (is_shown-blank lower f e)
      (shown_without_stream lower f all)

shown_all : (all : List DeadLetter) → filter (has_type every) all ≡ all
shown_all [] = refl
shown_all (e ∷ all) = ap (e ∷◌) (shown_all all)

-- Without a filter for the stream, each choice of a type shows as many dead letters as the count
-- beside it says, and the counts of the two types add up to the total.
pub events-count :
    (lower : String → String) (t : DeadLetterType) (fetched : Option (List DeadLetter))
    → (length (events lower (only t) "" fetched) ≡ count_type t fetched)
      × (length (events lower every "" fetched) ≡ total fetched)
      × (count_type max_deliver fetched + count_type terminated fetched ≡ total fetched)
unfolding events total count_type
events-count lower t fetched =
    let all : List DeadLetter = or_else fetched [] in
    (
      ap length (shown_without_stream lower (only t) all),
      rw (shown_without_stream lower every all, shown_all all) refl,
      count-sum all,
    )
