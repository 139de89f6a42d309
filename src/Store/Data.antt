-- ===== src/Store/Data.antt =====
-- `useDataStore`: what the backend has reported, by cluster, stream or replay.
pub mod Actions
pub mod Buffers
pub mod Servers
mod Tests
use nats_ui.Prelude.{
  ℕ, ◌-◌, String, Bool, not, List, [], ◌∷◌, ◌++◌, length, drop, last_n, slice_end, filter, Dict,
  lookup, insert, or_else, str_eq, ltb, ◌==◌, if◌then◌else◌,
}
use nats_ui.Types.Servers.{NatsServer}
use nats_ui.Types.Cluster.{ClusterInfo}
use nats_ui.Types.Streams.{StreamInfo}
use nats_ui.Types.Consumers.{ConsumerInfo}
use nats_ui.Types.Messages.{TailedMessage, ThroughputPoint}
use nats_ui.Types.Replays.{ReplayProgress}

pub record DataState : Type 0 where
  pub discovered_servers : List NatsServer
  pub clusters : Dict ClusterInfo
  pub streams : Dict (List StreamInfo)
  pub consumers : Dict (List ConsumerInfo)
  pub throughput : Dict (List ThroughputPoint)
  pub tail_messages : Dict (List TailedMessage)
  pub tail_active : Dict Bool
  pub replay : Dict ReplayProgress

abbrev pub max_throughput_points : ℕ
max_throughput_points = 120

abbrev pub max_tail_messages : ℕ
max_tail_messages = 10000

abbrev pub initial_data : DataState
initial_data = record {
  discovered_servers = [];
  clusters = [];
  streams = [];
  consumers = [];
  throughput = [];
  tail_messages = [];
  tail_active = [];
  replay = [];
}

-- `s.discoveredServers.filter(d => d.id !== id)`.
abbrev pub without_server : String → List NatsServer → List NatsServer
without_server id servers = filter (λ d. not (str_eq d.id id)) servers

pub set_discovered_servers : List NatsServer → DataState → DataState
set_discovered_servers servers s = record s { discovered_servers = servers }

pub add_discovered_server : NatsServer → DataState → DataState
add_discovered_server server s = record s {
  discovered_servers = without_server server.id s.discovered_servers ++ server ∷ [];
}

pub remove_discovered_server : String → DataState → DataState
remove_discovered_server id s = record s {
  discovered_servers = without_server id s.discovered_servers;
}

pub set_cluster : ClusterInfo → DataState → DataState
set_cluster cluster s = record s { clusters = insert cluster.id cluster s.clusters }

pub set_streams : String → List StreamInfo → DataState → DataState
set_streams cluster_id list s = record s { streams = insert cluster_id list s.streams }

pub set_consumers : String → List ConsumerInfo → DataState → DataState
set_consumers key list s = record s { consumers = insert key list s.consumers }

pub push_throughput : ℕ → String → ThroughputPoint → DataState → DataState
push_throughput max_points cluster_id point s =
    let prev = or_else (lookup cluster_id s.throughput) [] in
    record s {
      throughput = insert cluster_id (slice_end max_points (prev ++ point ∷ [])) s.throughput;
    }

-- `next.splice(0, next.length - maxMsgs)` where the list is too long.
abbrev pub splice_over {ℓ} : {A : Type ℓ} → ℕ → List A → List A
splice_over limit next = if ltb limit (length next) then drop (length next - limit) next else next

pub push_tail_message : ℕ → String → TailedMessage → DataState → DataState
push_tail_message max_msgs key msg s =
    let prev = or_else (lookup key s.tail_messages) [] in
    record s {
      tail_messages = insert key (splice_over max_msgs (prev ++ msg ∷ [])) s.tail_messages;
    }

pub batch_push_tail_messages : ℕ → String → List TailedMessage → DataState → DataState
batch_push_tail_messages max_msgs key [] s = s
batch_push_tail_messages max_msgs key (m ∷ ms) s =
    let combined = or_else (lookup key s.tail_messages) [] ++ m ∷ ms in
    let next = if ltb max_msgs (length combined) then slice_end max_msgs combined else combined in
    record s { tail_messages = insert key next s.tail_messages }

unfoldable pub clear_tail : String → DataState → DataState
clear_tail key s = record s { tail_messages = insert key [] s.tail_messages }

pub set_tail_active : String → Bool → DataState → DataState
set_tail_active key active s = record s { tail_active = insert key active s.tail_active }

pub set_replay_progress : String → ReplayProgress → DataState → DataState
set_replay_progress id progress s = record s { replay = insert id progress s.replay }
