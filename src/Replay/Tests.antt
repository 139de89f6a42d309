-- ===== src/Replay/Tests.antt =====
-- A replay from a sequence number.
use nats_ui.Prelude.{ℕ, String, ◌≡◌, refl, Option, none, some, decimal}
use nats_ui.Replay.{Studio, seq, new_replay_id, replay_config}

abbrev order_studio : Studio
order_studio = record {
  replay_counter = 1;
  cluster_id = "c";
  stream = "orders";
  mode = seq;
  start_seq = "7";
  start_time = "";
  end_seq = "";
  throttle_ms = "";
  filter_subj = "";
  shadow_subj = "";
}

abbrev seven : String → Option ℕ
seven text = some 7

abbrev no_time : String → String
no_time text = text

config_tests :
    ((replay_config seven no_time "r" order_studio).start_seq ≡ some 7)
    × ((replay_config seven no_time "r" order_studio).end_seq ≡ none)
    × (new_replay_id 2 9 ≡ "replay-2-9")
unfolding replay_config new_replay_id decimal
config_tests = (refl, refl, refl)
