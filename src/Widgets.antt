-- ===== src/Widgets.antt =====
-- The Stepper of frontend/src/components/ui/index.tsx: a number with a button to each side. A missing
-- maximum is `none`. The minimum of every stepper is at least 0, so that a subtraction that stops at
-- 0 gives the same number after the clamp.
use nats_ui.Prelude.{
  ℕ, ◌+◌, ◌-◌, ◌≤◌, min, max, inl, inr, Bool, false, Option, none, some, leb, if◌then◌else◌,
  Bool-cases, arith,
}

pub record Stepper : Type 0 where
  pub low : ℕ
  pub high : Option ℕ
  pub step : ℕ

abbrev at_most : Option ℕ → ℕ → ℕ
at_most none n = n
at_most (some high) n = min high n

pub clamp : Stepper → ℕ → ℕ
clamp p n = at_most p.high (max p.low n)

-- Whether the maximum is reached.
abbrev is_full : Option ℕ → ℕ → Bool
is_full none n = false
is_full (some high) n = leb high n

-- A click on a button that is not disabled.
unfoldable pub decrease : Stepper → ℕ → ℕ
unfolding clamp
decrease p n = if leb n p.low then n else clamp p (n - p.step)

unfoldable pub increase : Stepper → ℕ → ℕ
unfolding clamp
increase p n = if is_full p.high n then n else clamp p (n + p.step)

abbrev pub IsAtMost : Option ℕ → ℕ → Type 0
IsAtMost none n = Unit
IsAtMost (some high) n = n ≤ high

-- A number between the ends of the stepper.
pub record IsWithin (p : Stepper) (n : ℕ) : Type 0 where
  pub above : p.low ≤ n
  pub below : IsAtMost p.high n

abbrev pub IsOrdered : Stepper → Type 0
IsOrdered p = IsAtMost p.high p.low

at_most-between :
    (low : ℕ) (high : Option ℕ) (n : ℕ)
    → IsAtMost high low
    → low ≤ n
    → (low ≤ at_most high n) × IsAtMost high (at_most high n)
at_most-between low none n h k = (k, tt)
at_most-between low (some high) n h k = (omega arith, omega arith)

clamp-IsWithin : (p : Stepper) (n : ℕ) → IsOrdered p → IsWithin p (clamp p n)
unfolding clamp
clamp-IsWithin p n h =
    let (above, below) = at_most-between p.low p.high (max p.low n) h (omega arith) in
    record { above = above; below = below }

-- Both buttons keep a number between the ends.
pub stepped-IsWithin :
    (p : Stepper) (n : ℕ)
    → IsOrdered p
    → IsWithin p n
    → IsWithin p (decrease p n) × IsWithin p (increase p n)
unfolding decrease increase
stepped-IsWithin p n h w = (
  elim (Bool-cases (leb n p.low)) [
    | inl e ↦ rw e w
    | inr e ↦ rw e (clamp-IsWithin p (n - p.step) h)
  ],
  elim (Bool-cases (is_full p.high n)) [
    | inl e ↦ rw e w
    | inr e ↦ rw e (clamp-IsWithin p (n + p.step) h)
  ],
)
