-- ===== src/Export/Tests.antt =====
-- A stream and a consumer as code.
use nats_ui.Prelude.{
  pos, ◌+◌, ◌≤◌, ℕ, ◌*◌, ◌<◌, String, ◌^+◌, decimal, ◌≡◌, refl, none, some, [], ◌∷◌,
}
use nats_ui.Types.Streams.{StreamConfig, limits, file}
use nats_ui.Export.{
  option_line, stream_cli_lines, stream_tf_lines, sec_to_dur, ns_to_dur, replace_others, tf_id,
  join,
}
use nats_ui.Export.Durations.{
  TimeUnit, unit_text, unit_seconds, Contains, stream_cli_lines-stream_tf_lines,
}

abbrev config : StreamConfig
config = record {
  name = "a-b";
  description = none;
  subjects = "a" ∷ "b" ∷ [];
  retention = limits;
  storage = file;
  max_age = some (pos 7200000000000);
  max_bytes = none;
  max_msgs = none;
  max_msg_size = none;
  replicas = 1;
  discard = none;
  duplicates = none;
}

abbrev same_text : String → String
same_text s = s

text_tests :
    (ns_to_dur (some (pos 7200000000000)) ≡ "2h")
    × (ns_to_dur (some (pos 90000000000)) ≡ "90s")
    × (ns_to_dur (some (pos 300000000)) ≡ "0h")
    × (tf_id same_text "a-b" ≡ tf_id same_text "a_b")
    × (join ", " ("a" ∷ "b" ∷ []) ≡ "a, b")
unfolding sec_to_dur ns_to_dur tf_id replace_others join decimal
text_tests = (refl, refl, refl, refl, refl)

stream_cli_lines-stream_tf_lines_example :
    (s k : ℕ) × (u : TimeUnit) × Contains
      (option_line "max-age" (decimal k ^+ unit_text u))
      (stream_cli_lines config)
    × Contains ("  max_age   = " ^+ decimal s) (stream_tf_lines same_text config)
    × (k * unit_seconds u ≡ s)
    × (s * 1000000000 ≤ 7200000000000 + 500000000)
    × (7200000000000 + 500000000 < (s + 1) * 1000000000)
stream_cli_lines-stream_tf_lines_example =
    stream_cli_lines-stream_tf_lines same_text config 7200000000000 refl
