-- ===== src/Format/Levels.antt =====
-- Levels of health and lag.
use nats_ui.Prelude.{
  ℕ, ◌≤◌, String, str_eq, ◌≡◌, refl, ltb, ◌==◌, if◌then◌else◌, arith, Bool-cases, ==_iff, inl, inr,
}
use nats_ui.Format.{
  Floats, LagSeverity, ok, warn, critical, format_lag, is_warning, is_bad, health_color, health_bg,
  health_dot,
}

-- How bad a severity is.
abbrev pub rank : LagSeverity → ℕ
rank ok = 0
rank warn = 1
rank critical = 2

abbrev severity_at : ℕ → LagSeverity
severity_at lag = if ltb lag 1000 then ok else if ltb lag 100000 then warn else critical

format_lag-severity_at : (fl : Floats) (lag : ℕ) → (format_lag fl lag).1 ≡ severity_at lag
unfolding format_lag
format_lag-severity_at fl lag = elim (Bool-cases (lag == 0)) [
  | inl e ↦ let none_behind : lag ≡ 0 = (==_iff lag 0).0 e in rw none_behind refl
  | inr e ↦ elim (Bool-cases (ltb lag 1000)) [
    | inl f ↦ rw (e, f) refl
    | inr f ↦ elim (Bool-cases (ltb lag 100000)) [
      | inl g ↦ rw (e, f, g) refl
      | inr g ↦ rw (e, f, g) refl
    ]
  ]
]

severity_at_mono : (a b : ℕ) → a ≤ b → rank (severity_at a) ≤ rank (severity_at b)
severity_at_mono a b h = ground arith

-- More lag is never shown as less severe.
pub format_lag_mono :
    (fl : Floats) (a b : ℕ) → a ≤ b → rank (format_lag fl a).1 ≤ rank (format_lag fl b).1
format_lag_mono fl a b h =
    rw (format_lag-severity_at fl a, format_lag-severity_at fl b) (severity_at_mono a b h)

-- A health is shown in yellow by one of the three functions exactly where the others do, and in red
-- likewise.
pub health_colors_agree :
    (health : String)
    → (str_eq (health_color health) "text-accent-yellow"
        ≡ str_eq (health_dot health) "bg-accent-yellow")
      × (str_eq (health_color health) "text-accent-yellow"
          ≡ str_eq (health_bg health) "bg-accent-yellow/10 border-accent-yellow/20")
      × (str_eq (health_color health) "text-accent-red"
          ≡ str_eq (health_dot health) "bg-accent-red animate-pulse")
      × (str_eq (health_color health) "text-accent-red"
          ≡ str_eq (health_bg health) "bg-accent-red/10 border-accent-red/20")
unfolding health_color health_bg health_dot
health_colors_agree health = elim (Bool-cases (str_eq health "ok")) [
  | inl e ↦ rw e (refl, refl, refl, refl)
  | inr e ↦ elim (Bool-cases (is_warning health)) [
    | inl f ↦ rw (e, f) (refl, refl, refl, refl)
    | inr f ↦ elim (Bool-cases (is_bad health)) [
      | inl g ↦ rw (e, f, g) (refl, refl, refl, refl)
      | inr g ↦ rw (e, f, g) (refl, refl, refl, refl)
    ]
  ]
]
