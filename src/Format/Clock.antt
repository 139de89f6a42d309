-- ===== src/Format/Clock.antt =====
-- Times of the form `hh:mm:ss`.
use Prim.Native.Char.{Char}
use nats_ui.Prelude.{
  ℕ, ◌/◌, ◌%◌, String, ◌^+◌, decimal, value, value-zero, value-decimal, Avoids, Avoids-decimal,
  split_at, ◌≡◌, sym, ◌∙◌, ap, inl, inr, ltb, arith, Bool-cases,
}
use text.Mathlib.TextLemmas.{cons-append, nil-append}
use nats_ui.Format.{pad_two, format_hhmmss}

abbrev colon : Char
colon = ":"

value-pad_two : (n : ℕ) → value (pad_two n) 0 ≡ n
unfolding pad_two
value-pad_two n = elim (Bool-cases (ltb n 10)) [
  | inl e ↦ rw e (value-zero (decimal n) ∙ value-decimal n)
  | inr e ↦ rw e (value-decimal n)
]

pad_two_inj : (m n : ℕ) → pad_two m ≡ pad_two n → m ≡ n
pad_two_inj m n e = sym (value-pad_two m) ∙ ap (λ s. value s 0) e ∙ value-pad_two n

Avoids-pad_two : (n : ℕ) → Avoids b':' (pad_two n)
unfolding pad_two
Avoids-pad_two n = elim (Bool-cases (ltb n 10)) [
  | inl e ↦ rw (e, cons-append, nil-append) (omega arith, Avoids-decimal b':' n (inr (omega arith)))
  | inr e ↦ rw e (Avoids-decimal b':' n (inr (omega arith)))
]

colon-cons : (s : String) → (":" ^+ s) ≡ String.◌∷◌ colon s
colon-cons s = cons-append colon "" s ∙ ap (String.◌∷◌ colon) (nil-append s)

format_hhmmss-shape :
    (ms : ℕ)
    → format_hhmmss ms ≡ (
        pad_two (ms / 1000 / 3600)
        ^+ String.◌∷◌ colon
            (pad_two (ms / 1000 % 3600 / 60) ^+ String.◌∷◌ colon (pad_two (ms / 1000 % 60))))
unfolding format_hhmmss
format_hhmmss-shape ms =
    let s : String = pad_two (ms / 1000 % 60) in
    ap (λ x. pad_two (ms / 1000 / 3600) ^+ (":" ^+ (pad_two (ms / 1000 % 3600 / 60) ^+ x)))
      (colon-cons s)
    ∙ ap (λ x. pad_two (ms / 1000 / 3600) ^+ x)
        (colon-cons (pad_two (ms / 1000 % 3600 / 60) ^+ String.◌∷◌ colon s))

-- The text determines the time up to the second, also beyond 99 hours.
pub format_hhmmss_inj : (a b : ℕ) → format_hhmmss a ≡ format_hhmmss b → a / 1000 ≡ b / 1000
format_hhmmss_inj a b e =
    let whole = sym (format_hhmmss-shape a) ∙ e ∙ format_hhmmss-shape b in
    let (hours, rest) =
      split_at colon _ _ _ _ (Avoids-pad_two (a / 1000 / 3600)) (Avoids-pad_two (b / 1000 / 3600))
        whole in
    let (minutes, seconds) =
      split_at colon _ _ _ _ (Avoids-pad_two (a / 1000 % 3600 / 60))
        (Avoids-pad_two (b / 1000 % 3600 / 60)) rest in
    omega (arith, pad_two_inj _ _ hours, pad_two_inj _ _ minutes, pad_two_inj _ _ seconds)
