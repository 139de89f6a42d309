-- ===== src/Export/Durations.antt =====
-- The durations of an exported configuration, in its three formats.
use nats_ui.Prelude.{
  ◌∙◌, take, drop, zero, suc, ◌≤◌, ◌+◌, some, none, List, ◌∷◌, ◌++◌, ap, ℤ, pos, negsuc, natural,
  int_text, ℕ, ◌*◌, ◌/◌, ◌%◌, ◌<◌, String, ◌^+◌, decimal, ◌≡◌, refl, inl, inr, Bool-cases, Option,
  or_else, ◌==◌, arith,
}
use nats_ui.Types.Streams.{StreamConfig}
use nats_ui.Export.{
  seconds_of, int_seconds_of, sec_to_dur, ns_to_dur, option_line, stream_cli_lines, stream_tf_lines,
}

pub data TimeUnit : Type 0 where
  hours minutes seconds : TimeUnit

abbrev pub unit_text : TimeUnit → String
unit_text hours = "h"
unit_text minutes = "m"
unit_text seconds = "s"

abbrev pub unit_seconds : TimeUnit → ℕ
unit_seconds hours = 3600
unit_seconds minutes = 60
unit_seconds seconds = 1

-- A list has this line.
abbrev pub Contains : String → List String → Type 0
Contains line lines = (before after : List String) × (lines ≡ before ++ line ∷ after)

-- A number of seconds is written as a whole number of hours, minutes or seconds.
sec_to_dur_lem :
    (sec : ℕ)
    → (k : ℕ) × (u : TimeUnit) × (sec_to_dur sec ≡ (decimal k ^+ unit_text u))
      × (k * unit_seconds u ≡ sec)
unfolding sec_to_dur
sec_to_dur_lem sec = elim (Bool-cases (sec % 3600 == 0)) [
  | inl h ↦ (sec / 3600, hours, rw (sec_to_dur, h) refl, ground (arith, h))
  | inr h ↦ elim (Bool-cases (sec % 60 == 0)) [
    | inl m ↦ (sec / 60, minutes, rw (sec_to_dur, h, m) refl, ground (arith, m))
    | inr m ↦ (sec, seconds, rw (sec_to_dur, h, m) refl, omega arith)
  ]
]

ns_to_dur_lem :
    (o : Option ℤ) (n : ℕ)
    → or_else o (pos 0) ≡ pos n
    → (k : ℕ) × (u : TimeUnit) × (ns_to_dur o ≡ (decimal k ^+ unit_text u))
      × (k * unit_seconds u ≡ seconds_of n)
unfolding ns_to_dur
ns_to_dur_lem none n e =
    let zero : 0 ≡ n = ap natural e in
    (0, seconds, unfold decimal in refl, rw (← zero) (omega arith))
ns_to_dur_lem (some (negsuc m)) n e = absurd (let no : negsuc m ≡ pos n = e in cc)
ns_to_dur_lem (some (pos zero)) n e =
    let zero : 0 ≡ n = ap natural e in
    (0, seconds, unfold decimal in refl, rw (← zero) (omega arith))
ns_to_dur_lem (some (pos (suc m))) n e =
    let same : suc m ≡ n = ap natural e in rw (← same) (sec_to_dur_lem (seconds_of (suc m)))

Contains-eq : (a b : String) (lines : List String) → a ≡ b → Contains a lines → Contains b lines
Contains-eq a b lines e (before, after, h) =
    (before, after, h ∙ ap (λ line. before ++ line ∷ after) e)

cli_age :
    (c : StreamConfig) → Contains (option_line "max-age" (ns_to_dur c.max_age)) (stream_cli_lines c)
unfolding stream_cli_lines
cli_age c = (take 5 (stream_cli_lines c), drop 6 (stream_cli_lines c), refl)

tf_age :
    (lower : String → String) (c : StreamConfig)
    → Contains
        ("  max_age   = " ^+ int_text (int_seconds_of (or_else c.max_age (pos 0))))
        (stream_tf_lines lower c)
unfolding stream_tf_lines
tf_age lower c = (take 6 (stream_tf_lines lower c), drop 7 (stream_tf_lines lower c), refl)

-- The maximal age of a stream, of `n` nanoseconds where it has one that is not negative, is written in
-- the command as a whole number of hours, minutes or seconds, and in the Terraform resource as the same
-- number of seconds. This is the age rounded to the nearest second, and half a second up; so that an age
-- below half a second is written as 0.
pub stream_cli_lines-stream_tf_lines :
    (lower : String → String) (c : StreamConfig) (n : ℕ)
    → or_else c.max_age (pos 0) ≡ pos n
    → (s k : ℕ) × (u : TimeUnit) × Contains
        (option_line "max-age" (decimal k ^+ unit_text u))
        (stream_cli_lines c)
      × Contains ("  max_age   = " ^+ decimal s) (stream_tf_lines lower c)
      × (k * unit_seconds u ≡ s)
      × (s * 1000000000 ≤ n + 500000000)
      × (n + 500000000 < (s + 1) * 1000000000)
stream_cli_lines-stream_tf_lines lower c n e =
    let (k, u, written, same) = ns_to_dur_lem c.max_age n e in
    (
      seconds_of n,
      k,
      u,
      Contains-eq _ _ (stream_cli_lines c) (ap (option_line "max-age") written) (cli_age c),
      Contains-eq _ _ (stream_tf_lines lower c)
          (ap (λ z. "  max_age   = " ^+ int_text (int_seconds_of z)) e) (tf_age lower c),
      same,
      omega arith,
      omega arith,
    )
