-- ===== src/Prelude/Texts.antt =====
-- Texts: the native `String`, compared whole, and joined as template literals do.
use Prim.Native.String
use Prim.Native.String.{String}
use Prim.Native.Char.{Char}
use Prim.Native.Nat.{ℕ, suc}
use mathlib.Core.Path.{◌≡◌}
use mathlib.Core.Logic.{◌↔◌}
use mathlib.Core.Bool.{Bool, true}
use text.Mathlib.Text.{◌==◌}
use text.Mathlib.TextEquality.{eq_iff}
use text.Mathlib.TextLemmas.{nil-append, cons-append, head-eq_of_cons-eq}
use text.Mathlib.TextPositions.{eq_refl}

abbrev pub str_eq : String → String → Bool
str_eq a b = a == b

pub str_eq_iff : (a b : String) → (str_eq a b ≡ true) ↔ (a ≡ b)
str_eq_iff a b = eq_iff a b

pub str_eq_refl : (a : String) → str_eq a a ≡ true
str_eq_refl a = eq_refl a

infixl 65 ◌^+◌
abbrev pub ◌^+◌ : String → String → String
a ^+ b = String.◌++◌ a b

-- Two characters are compared as the texts that hold them alone.
abbrev pub char_eq : Char → Char → Bool
char_eq c d = str_eq (String.◌∷◌ c String.[]) (String.◌∷◌ d String.[])

pub eq_of_char_eq : (c d : Char) → char_eq c d ≡ true → c ≡ d
eq_of_char_eq c d h =
    head-eq_of_cons-eq ((str_eq_iff (String.◌∷◌ c String.[]) (String.◌∷◌ d String.[])).0 h)

-- The number of characters.
abbrev pub chars : String → ℕ
chars String.[] = 0
chars (String.◌∷◌ c s) = suc (chars s)

-- Joining, at texts whose characters are known.
pub ruleset text_append = (nil-append, cons-append)
