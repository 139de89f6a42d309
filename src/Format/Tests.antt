-- ===== src/Format/Tests.antt =====
-- Texts of concrete numbers, with made-up values of the language's functions.
use nats_ui.Prelude.{◌/◌, ◌^+◌, decimal, ◌≡◌, refl, none, some}
use nats_ui.Format.{
  Floats, format_bytes, format_number, format_duration, format_time_ago, format_hhmmss, truncate,
  health_color,
}

abbrev whole_floats : Floats
whole_floats = record {
  to_fixed = λ n d. decimal (n / d) ^+ ".0";
  short_fixed = λ n d. decimal (n / d);
  log_quotient = λ n k. 1;
  pretty_json = λ s. some s;
  atob = λ s. none;
  to_upper_case = λ s. s;
}

format_tests :
    (format_hhmmss 3725999 ≡ "01:02:05")
    × (format_number whole_floats 2000000 ≡ "2.0M")
    × (format_bytes whole_floats 2048 ≡ "2 KB")
    × (format_duration whole_floats 3720000 ≡ "1h 2m")
    × (format_time_ago 90000 0 ≡ "1m ago")
    × (truncate "abcdef" 3 ≡ "abc…")
    × (health_color "stuck" ≡ "text-text-secondary")
unfolding format_hhmmss format_number format_bytes format_duration format_time_ago truncate
    health_color decimal
format_tests = (refl, refl, refl, refl, refl, refl, refl)
