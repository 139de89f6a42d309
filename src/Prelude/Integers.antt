-- ===== src/Prelude/Integers.antt =====
-- Integers over the native numbers: the numbers of JavaScript that may be negative.
use Prim.Native.Nat.{ℕ, zero, suc, ◌*◌}
use Prim.Native.String.{String}
use mathlib.Core.Bool.{Bool, true, false}
use nats_ui.Prelude.Decimal.{decimal}
use nats_ui.Prelude.Texts.{◌^+◌}

pub data ℤ : Type 0 where
  pos : ℕ → ℤ
  negsuc : ℕ → ℤ

-- `-n`.
abbrev pub neg : ℕ → ℤ
neg zero = pos 0
neg (suc n) = negsuc n

-- `String(z)`.
abbrev pub int_text : ℤ → String
int_text (pos n) = decimal n
int_text (negsuc n) = "-" ^+ decimal (suc n)

-- `z * unit`.
abbrev pub scale : ℤ → ℕ → ℤ
scale (pos n) unit = pos (n * unit)
scale (negsuc n) unit = neg (suc n * unit)

-- `Math.max(z, 0)`.
abbrev pub natural : ℤ → ℕ
natural (pos n) = n
natural (negsuc n) = 0

-- `z !== 0`.
abbrev pub is_nonzero : ℤ → Bool
is_nonzero (pos zero) = false
is_nonzero (pos (suc n)) = true
is_nonzero (negsuc n) = true
