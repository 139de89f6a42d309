-- ===== src/Store/Data/Actions.antt =====
-- Every action of `useDataStore`, with the limits that its callers use, and what all of them keep.
use nats_ui.Prelude.{
  ◌≤◌, String, Bool, List, [], ◌∷◌, ◌++◌, length, last_n, length-last_n, slice_end, slice_end_pos,
  lookup, lookup-insert, arith,
}
use nats_ui.Types.Servers.{NatsServer}
use nats_ui.Types.Cluster.{ClusterInfo}
use nats_ui.Types.Streams.{StreamInfo}
use nats_ui.Types.Consumers.{ConsumerInfo}
use nats_ui.Types.Messages.{TailedMessage, ThroughputPoint}
use nats_ui.Types.Replays.{ReplayProgress}
use nats_ui.Store.Data.{
  DataState, initial_data, max_throughput_points, max_tail_messages, set_discovered_servers,
  add_discovered_server, remove_discovered_server, set_cluster, set_streams, set_consumers,
  push_throughput, push_tail_message, batch_push_tail_messages, clear_tail, set_tail_active,
  set_replay_progress,
}
use nats_ui.Store.Data.Buffers.{
  tail_of, points_of, put_tail, push_each, batch-eq-push_each, push-eq-put,
}

pub data Action : Type 0 where
  servers_set : List NatsServer → Action
  server_added : NatsServer → Action
  server_removed : String → Action
  cluster_set : ClusterInfo → Action
  streams_set : String → List StreamInfo → Action
  consumers_set : String → List ConsumerInfo → Action
  throughput_pushed : String → ThroughputPoint → Action
  tail_pushed : String → TailedMessage → Action
  tail_batched : String → List TailedMessage → Action
  tail_cleared : String → Action
  tail_activated : String → Bool → Action
  replay_set : String → ReplayProgress → Action

abbrev pub act : Action → DataState → DataState
act (servers_set l) = set_discovered_servers l
act (server_added v) = add_discovered_server v
act (server_removed id) = remove_discovered_server id
act (cluster_set v) = set_cluster v
act (streams_set id l) = set_streams id l
act (consumers_set key l) = set_consumers key l
act (throughput_pushed id p) = push_throughput max_throughput_points id p
act (tail_pushed key m) = push_tail_message max_tail_messages key m
act (tail_batched key ms) = batch_push_tail_messages max_tail_messages key ms
act (tail_cleared key) = clear_tail key
act (tail_activated key b) = set_tail_active key b
act (replay_set id p) = set_replay_progress id p

abbrev pub run : List Action → DataState → DataState
run [] s = s
run (a ∷ rest) s = run rest (act a s)

-- No list passes its limit.
pub record IsBounded (s : DataState) : Type 0 where
  pub tails : (key : String) → length (tail_of key s) ≤ max_tail_messages
  pub points : (id : String) → length (points_of id s) ≤ max_throughput_points

put_tail-IsBounded :
    (key : String) (next : List TailedMessage) (s : DataState)
    → length next ≤ max_tail_messages
    → IsBounded s
    → IsBounded (put_tail key next s)
put_tail-IsBounded key next s h v = record {
  tails = λ other. ground (arith, lookup-insert key other next s.tail_messages, v.tails other);
  points = v.points;
}

push-IsBounded :
    (key : String) (m : TailedMessage) (s : DataState)
    → IsBounded s
    → IsBounded (push_tail_message max_tail_messages key m s)
push-IsBounded key m s v =
    let next : List TailedMessage = tail_of key s ++ m ∷ [] in
    rw (push-eq-put max_tail_messages key m s) (
      put_tail-IsBounded key (last_n max_tail_messages next) s
        (omega (arith, length-last_n max_tail_messages next)) v)

push_each-IsBounded :
    (key : String) (ms : List TailedMessage) (s : DataState)
    → IsBounded s
    → IsBounded (push_each max_tail_messages key ms s)
push_each-IsBounded key [] s v = v
push_each-IsBounded key (m ∷ ms) s v = push_each-IsBounded key ms _ (push-IsBounded key m s v)

throughput-IsBounded :
    (id : String) (p : ThroughputPoint) (s : DataState)
    → IsBounded s
    → IsBounded (push_throughput max_throughput_points id p s)
unfolding push_throughput
throughput-IsBounded id p s v =
    let next : List ThroughputPoint = points_of id s ++ p ∷ [] in
    let short : length (slice_end max_throughput_points next) ≤ max_throughput_points =
      rw (slice_end_pos max_throughput_points next (omega arith))
        (omega (arith, length-last_n max_throughput_points next)) in
    record {
      tails = v.tails;
      points = λ other. ground (
        arith,
        lookup-insert id other (slice_end max_throughput_points next) s.throughput,
        v.points other,
      );
    }

act-IsBounded : (a : Action) (s : DataState) → IsBounded s → IsBounded (act a s)
unfolding set_discovered_servers add_discovered_server remove_discovered_server set_cluster
    set_streams set_consumers clear_tail set_tail_active set_replay_progress
act-IsBounded (throughput_pushed id p) s v = throughput-IsBounded id p s v
act-IsBounded (tail_pushed key m) s v = push-IsBounded key m s v
act-IsBounded (tail_batched key ms) s v =
    rw (batch-eq-push_each max_tail_messages key ms s (omega arith))
      (push_each-IsBounded key ms s v)
act-IsBounded (tail_cleared key) s v = put_tail-IsBounded key [] s (omega arith) v
act-IsBounded a s v = record { tails = v.tails; points = v.points }

-- Whatever actions run, from a state within the limits, as the initial one is, no tail holds more than 10000 messages and no
-- cluster more than 120 throughput points.
pub run-IsBounded :
    (actions : List Action) {s : DataState} → IsBounded s → IsBounded (run actions s)
run-IsBounded [] v = v
run-IsBounded (a ∷ rest) {s} v = run-IsBounded rest (act-IsBounded a s v)

pub initial_data-IsBounded : IsBounded initial_data
unfolding lookup
initial_data-IsBounded = record { tails = λ key. omega arith; points = λ id. omega arith }
