-- ===== src/Store/Data/Tests.antt =====
-- Runs of `useDataStore`, from its initial state.
use nats_ui.Prelude.{ℕ, ◌≡◌, false, none, some, [], ◌∷◌, arith}
use nats_ui.Types.Messages.{TailedMessage, ThroughputPoint}
use nats_ui.Types.Servers.{manual, NatsServer}
use nats_ui.Store.Data.{initial_data, batch_push_tail_messages}
use nats_ui.Store.Data.Buffers.{push_each, batch-eq-push_each}
use nats_ui.Store.Data.Actions.{
  throughput_pushed, tail_pushed, run, IsBounded, run-IsBounded, initial_data-IsBounded,
}

abbrev tailed : ℕ → TailedMessage
tailed n = record {
  id = none;
  cluster_id = some "c";
  stream = "orders";
  subject_filter = none;
  subject = "orders.new";
  seq = n;
  timestamp = "";
  payload = "";
  payload_text = "";
  payload_size = 0;
  headers = none;
  redelivered = false;
  reply_to = none;
}

abbrev point : ℕ → ThroughputPoint
point n = record {
  cluster_id = "c";
  node_id = none;
  timestamp = "";
  in_msgs = n;
  out_msgs = 0;
  in_bytes = 0;
  out_bytes = 0;
}

abbrev found_server : NatsServer
found_server = record {
  id = "s1";
  name = "s1";
  host = "localhost";
  client_port = 4222;
  monitor_port = 8222;
  source = manual;
  labels = none;
  tls_enabled = false;
  discovered_at = "";
}

batch-eq-push_each_example :
    batch_push_tail_messages 1 "k" (tailed 1 ∷ tailed 2 ∷ []) initial_data
    ≡ push_each 1 "k" (tailed 1 ∷ tailed 2 ∷ []) initial_data
batch-eq-push_each_example =
    batch-eq-push_each 1 "k" (tailed 1 ∷ tailed 2 ∷ []) initial_data (omega arith)

run-IsBounded_example :
    IsBounded (run (throughput_pushed "c" (point 1) ∷ tail_pushed "k" (tailed 1) ∷ []) initial_data)
run-IsBounded_example =
    run-IsBounded (throughput_pushed "c" (point 1) ∷ tail_pushed "k" (tailed 1) ∷ [])
      initial_data-IsBounded
