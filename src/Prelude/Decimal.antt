-- ===== src/Prelude/Decimal.antt =====
-- `String(n)` of a natural number, and that different numbers have different texts.
use Prim.Native.Nat.{ℕ, zero, suc, ◌+◌, ◌-◌, ◌*◌, ◌/◌, ◌%◌, ◌<◌}
use Prim.Native.Char.{code}
use Prim.Native.String.{String}
use mathlib.Core.Path.{◌≡◌, refl, ap, sym, ◌∙◌}
use mathlib.Core.Logic.{inl, inr}
use native.Mathlib.Omega.{arith}
use text.Mathlib.TextLemmas.{nil-append, cons-append}
use nats_ui.Prelude.Tests.{if◌then◌else◌, ◌==◌, Bool-cases}
use mathlib.Core.Bool.{true, false}
use nats_ui.Prelude.Texts.{◌^+◌, str_eq, str_eq_iff}

unfoldable pub digit : ℕ → String
digit zero = "0"
digit (suc zero) = "1"
digit (suc (suc zero)) = "2"
digit (suc (suc (suc zero))) = "3"
digit (suc (suc (suc (suc zero)))) = "4"
digit (suc (suc (suc (suc (suc zero))))) = "5"
digit (suc (suc (suc (suc (suc (suc zero)))))) = "6"
digit (suc (suc (suc (suc (suc (suc (suc zero))))))) = "7"
digit (suc (suc (suc (suc (suc (suc (suc (suc zero)))))))) = "8"
digit _ = "9"

-- The digits of `n` in front of `rest`; `n + 1` rounds are enough.
unfoldable pub digits : ℕ → ℕ → String → String
digits zero n rest = rest
digits (suc f) n rest =
    let more = digits f (n / 10) (digit (n % 10) ^+ rest) in
    if n / 10 == 0 then digit (n % 10) ^+ rest else more

unfoldable pub decimal : ℕ → String
unfolding digits digit
decimal n = digits (suc n) n ""

-- The number that a text of digits, read after the number `a`, stands for.
pub value : String → ℕ → ℕ
value String.[] a = a
value (String.◌∷◌ c s) a = value s (a * 10 + (code c - b'0'))

value-digit : (d : ℕ) (s : String) (a : ℕ) → d < 10 → value (digit d ^+ s) a ≡ value s (a * 10 + d)
unfolding value digit
value-digit zero s a h = rw (cons-append, nil-append) refl
value-digit (suc zero) s a h = rw (cons-append, nil-append) refl
value-digit (suc (suc zero)) s a h = rw (cons-append, nil-append) refl
value-digit (suc (suc (suc zero))) s a h = rw (cons-append, nil-append) refl
value-digit (suc (suc (suc (suc zero)))) s a h = rw (cons-append, nil-append) refl
value-digit (suc (suc (suc (suc (suc zero))))) s a h = rw (cons-append, nil-append) refl
value-digit (suc (suc (suc (suc (suc (suc zero)))))) s a h = rw (cons-append, nil-append) refl
value-digit (suc (suc (suc (suc (suc (suc (suc zero))))))) s a h = rw (cons-append, nil-append) refl
value-digit (suc (suc (suc (suc (suc (suc (suc (suc zero)))))))) s a h =
    rw (cons-append, nil-append) refl
value-digit (suc (suc (suc (suc (suc (suc (suc (suc (suc zero))))))))) s a h =
    rw (cons-append, nil-append) refl
value-digit (suc (suc (suc (suc (suc (suc (suc (suc (suc (suc k)))))))))) s a h =
    absurd (omega arith)

value-digits : (f n : ℕ) (rest : String) → n < f → value (digits f n rest) 0 ≡ value rest n
unfolding digits
value-digits zero n rest h = absurd (omega arith)
value-digits (suc f) n rest h = elim (Bool-cases (n / 10 == 0)) [
  | inl e ↦ rw e (value-digit (n % 10) rest 0 (omega arith) ∙ ap (value rest) (ground arith))
  | inr e ↦ rw e (
      value-digits f (n / 10) (digit (n % 10) ^+ rest) (ground arith)
      ∙ value-digit (n % 10) rest (n / 10) (omega arith)
      ∙ ap (value rest) (omega arith))
]

pub value-decimal : (n : ℕ) → value (decimal n) 0 ≡ n
unfolding decimal value
value-decimal n = value-digits (suc n) n "" (omega arith)

-- A leading zero does not count.
pub value-zero : (s : String) → value ("0" ^+ s) 0 ≡ value s 0
unfolding value
value-zero s = rw (cons-append, nil-append) refl

-- Nor does a minus.
pub value-minus : (s : String) → value ("-" ^+ s) 0 ≡ value s 0
unfolding value
value-minus s = rw (cons-append, nil-append) refl

pub decimal_inj : (m n : ℕ) → decimal m ≡ decimal n → m ≡ n
decimal_inj m n e = sym (value-decimal m) ∙ ap (λ s. value s 0) e ∙ value-decimal n

-- A number is never written as nothing.
pub decimal-filled : (n : ℕ) → str_eq (decimal n) "" ≡ false
unfolding decimal value
decimal-filled n = elim (Bool-cases (str_eq (decimal n) "")) [
  | inr e ↦ e
  | inl e ↦
      let blank = (str_eq_iff (decimal n) "").0 e in
      let none_left : n ≡ 0 = sym (value-decimal n) ∙ ap (λ s. value s 0) blank in
      let zero_blank : str_eq (decimal 0) "" ≡ true = rw none_left at e in cc
]
