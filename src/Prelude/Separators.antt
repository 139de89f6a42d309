-- ===== src/Prelude/Separators.antt =====
-- Texts joined at a character that the first of them does not have.
use Prim.Native.Nat.{ℕ, zero, suc, ◌<◌, ◌%◌, ◌/◌}
use Prim.Native.Char.{Char, code}
use Prim.Native.String.{String}
use mathlib.Core.Path.{◌≡◌, refl, sym, ◌∙◌, ap, ap₂}
use mathlib.Core.Logic.{◌≢◌, ◌⊎◌, inl, inr}
use native.Mathlib.Omega.{arith}
use text.Mathlib.TextLemmas.{nil-append, cons-append, head-eq_of_cons-eq, tail-eq_of_cons-eq}
use nats_ui.Prelude.Tests.{◌==◌, Bool-cases}
use nats_ui.Prelude.Texts.{◌^+◌}
use nats_ui.Prelude.Decimal.{digit, digits, decimal}

-- No character of the text has the given code.
abbrev pub Avoids : ℕ → String → Type 0
Avoids n String.[] = Unit
Avoids n (String.◌∷◌ c s) = (code c ≢ n) × Avoids n s

-- Where the part before the first separator has none, it and the rest are determined.
pub split_at :
    (sep : Char) (a b s t : String)
    → Avoids (code sep) a
    → Avoids (code sep) b
    → (a ^+ String.◌∷◌ sep s) ≡ (b ^+ String.◌∷◌ sep t)
    → (a ≡ b) × (s ≡ t)
split_at sep String.[] String.[] s t p q e = (
  refl,
  tail-eq_of_cons-eq (sym (nil-append (String.◌∷◌ sep s)) ∙ e ∙ nil-append (String.◌∷◌ sep t)),
)
split_at sep String.[] (String.◌∷◌ d b) s t p q e = absurd (
    q.0 (
      sym (
        ap code (
          head-eq_of_cons-eq
            (sym (nil-append (String.◌∷◌ sep s)) ∙ e ∙ cons-append d b (String.◌∷◌ sep t))))))
split_at sep (String.◌∷◌ c a) String.[] s t p q e = absurd (
    p.0 (
      ap code (
        head-eq_of_cons-eq
          (sym (cons-append c a (String.◌∷◌ sep s)) ∙ e ∙ nil-append (String.◌∷◌ sep t)))))
split_at sep (String.◌∷◌ c a) (String.◌∷◌ d b) s t p q e =
    let whole = sym (cons-append c a (String.◌∷◌ sep s)) ∙ e ∙ cons-append d b (String.◌∷◌ sep t) in
    let (same, rest) = split_at sep a b s t p.1 q.1 (tail-eq_of_cons-eq whole) in
    (ap₂ String.◌∷◌ (head-eq_of_cons-eq whole) same, rest)

-- A character code that is not a digit's.
abbrev pub NotDigit : ℕ → Type 0
NotDigit n = (n < b'0') ⊎ (b'9' < n)

Avoids-digit : (n d : ℕ) (s : String) → NotDigit n → Avoids n s → Avoids n (digit d ^+ s)
unfolding digit
Avoids-digit n zero s ne h = rw (cons-append, nil-append) (omega (arith, ne), h)
Avoids-digit n (suc zero) s ne h = rw (cons-append, nil-append) (omega (arith, ne), h)
Avoids-digit n (suc (suc zero)) s ne h = rw (cons-append, nil-append) (omega (arith, ne), h)
Avoids-digit n (suc (suc (suc zero))) s ne h = rw (cons-append, nil-append) (omega (arith, ne), h)
Avoids-digit n (suc (suc (suc (suc zero)))) s ne h =
    rw (cons-append, nil-append) (omega (arith, ne), h)
Avoids-digit n (suc (suc (suc (suc (suc zero))))) s ne h =
    rw (cons-append, nil-append) (omega (arith, ne), h)
Avoids-digit n (suc (suc (suc (suc (suc (suc zero)))))) s ne h =
    rw (cons-append, nil-append) (omega (arith, ne), h)
Avoids-digit n (suc (suc (suc (suc (suc (suc (suc zero))))))) s ne h =
    rw (cons-append, nil-append) (omega (arith, ne), h)
Avoids-digit n (suc (suc (suc (suc (suc (suc (suc (suc zero)))))))) s ne h =
    rw (cons-append, nil-append) (omega (arith, ne), h)
Avoids-digit n (suc (suc (suc (suc (suc (suc (suc (suc (suc k))))))))) s ne h =
    rw (cons-append, nil-append) (omega (arith, ne), h)

Avoids-digits : (n f m : ℕ) (s : String) → NotDigit n → Avoids n s → Avoids n (digits f m s)
unfolding digits
Avoids-digits n zero m s ne h = h
Avoids-digits n (suc f) m s ne h = elim (Bool-cases (m / 10 == 0)) [
  | inl e ↦ rw e (Avoids-digit n (m % 10) s ne h)
  | inr e ↦
      rw e (Avoids-digits n f (m / 10) (digit (m % 10) ^+ s) ne (Avoids-digit n (m % 10) s ne h))
]

-- The text of a number has nothing but digits.
pub Avoids-decimal : (n m : ℕ) → NotDigit n → Avoids n (decimal m)
unfolding decimal
Avoids-decimal n m ne = Avoids-digits n (suc m) m "" ne tt
