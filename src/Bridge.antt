-- ===== src/Bridge.antt =====
-- frontend/src/hooks/useWebSocket.ts: the events of the WebSocket go to the stores, tailed messages
-- through a buffer that is committed once per animation frame. An action takes the state of the
-- application to the next one; `requestAnimationFrame` is a parameter, the number that it returns.
-- An event's untyped data is taken at the type that its handler expects.
pub mod Keys
pub mod Buffer
pub mod Frames
pub mod Tails
mod Tests
use nats_ui.Prelude.{
  ℕ, ◌+◌, String, str_eq, ◌^+◌, decimal, Bool, true, false, not, ◌||◌, Option, none, some, or_else,
  List, [], ◌∷◌, ◌++◌, length, drop, Dict, lookup, insert, erase, ltb, if◌then◌else◌,
}
use nats_ui.Types.Servers.{NatsServer}
use nats_ui.Types.Cluster.{ClusterInfo}
use nats_ui.Types.Streams.{StreamInfo}
use nats_ui.Types.Messages.{TailedMessage, ThroughputPoint}
use nats_ui.Types.Replays.{ReplayProgress}
use nats_ui.Store.Ui.{UiState, set_ws_connected, set_active_cluster}
use nats_ui.Store.Data.{
  DataState, max_throughput_points, max_tail_messages, add_discovered_server,
  remove_discovered_server, set_cluster, set_streams, push_throughput, batch_push_tail_messages,
  clear_tail, set_tail_active, set_replay_progress,
}

pub record App : Type 0 where
  pub ui : UiState
  pub store : DataState
  pub pending : Dict (List TailedMessage)
  pub raf_handle : Option ℕ
  pub id_counter : ℕ

abbrev pub max_buffer_per_key : ℕ
max_buffer_per_key = 2000

pub schedule_flush : ℕ → App → App
schedule_flush raf a = elim a.raf_handle [ none ↦ record a { raf_handle = some raf } | some _ ↦ a ]

-- `q.shift()` where the queue is too long.
abbrev pub shift_long : List TailedMessage → List TailedMessage
shift_long q = if ltb max_buffer_per_key (length q) then drop 1 q else q

pub enqueue_message : ℕ → String → TailedMessage → App → App
unfolding schedule_flush
enqueue_message raf key msg a =
    let q = or_else (lookup key a.pending) [] ++ msg ∷ [] in
    schedule_flush raf (record a { pending = insert key (shift_long q) a.pending })

-- The loop of `flushPendingMessages`; what it leaves in the buffer is `drained`.
pub flush_each : Dict (List TailedMessage) → DataState → DataState
flush_each [] s = s
flush_each ((key, []) ∷ rest) s = flush_each rest s
flush_each ((key, m ∷ ms) ∷ rest) s =
    flush_each rest (batch_push_tail_messages max_tail_messages key (m ∷ ms) s)

pub drained : Dict (List TailedMessage) → Dict (List TailedMessage)
drained [] = []
drained ((key, ms) ∷ rest) = (key, []) ∷ drained rest

pub flush_pending_messages : App → App
unfolding flush_each drained
flush_pending_messages a = record a {
  store = flush_each a.pending a.store;
  pending = drained a.pending;
  raf_handle = none;
}

-- `msg-${++idCounter}`.
pub message_id : ℕ → String
message_id n = "msg-" ^+ decimal n

abbrev pub stream_key : String → String → String
stream_key cluster stream = cluster ^+ (":" ^+ stream)

abbrev pub subject_key : String → String → String
subject_key cluster subject = "subj:" ^+ (cluster ^+ (":" ^+ subject))

-- `subjectFilter ? … : …`, where an empty text is no filter.
pub tail_key : Option String → String → Option String → String
tail_key cluster stream none = stream_key (or_else cluster "") stream
tail_key cluster stream (some subject) =
    if str_eq subject ""
    then stream_key (or_else cluster "") stream
    else subject_key (or_else cluster "") subject

-- The data of `tail.started` and `tail.stopped`.
pub record TailRef : Type 0 where
  pub cluster_id : Option String
  pub stream : Option String
  pub subject_filter : Option String

abbrev pub ref_key : TailRef → String
ref_key r = tail_key r.cluster_id (or_else r.stream "") r.subject_filter

pub data Event : Type 0 where
  connected error : Event
  topology : ClusterInfo → Event
  stream_list : String → List StreamInfo → Event
  throughput : ThroughputPoint → Event
  message_received : TailedMessage → Event
  discovery_found : NatsServer → Event
  discovery_lost : String → Event
  tail_started tail_stopped : TailRef → Event
  replay_progress : ReplayProgress → Event

abbrev pub on_store : (DataState → DataState) → App → App
on_store f a = record a { store = f a.store }

abbrev pub on_ui : (UiState → UiState) → App → App
on_ui f a = record a { ui = f a.ui }

-- The message gets the next identifier, and goes to the buffer of its key.
pub receive : ℕ → TailedMessage → App → App
unfolding message_id tail_key enqueue_message
receive raf m a =
    let n = a.id_counter + 1 in
    enqueue_message raf (tail_key m.cluster_id m.stream m.subject_filter)
      (record m { id = some (message_id n) }) (record a { id_counter = n })

-- The callbacks that `useWebSocketBridge` subscribes.
pub handle : ℕ → Event → App → App
unfolding receive
handle raf connected a = on_ui (set_ws_connected true) a
handle raf error a = a
handle raf (topology c) a =
    let a' = on_store (set_cluster c) a in
    if str_eq c.id "" then a' else on_ui (set_active_cluster c.id) a'
handle raf (stream_list cluster_id list) a = on_store (set_streams cluster_id list) a
handle raf (throughput p) a = on_store (push_throughput max_throughput_points p.cluster_id p) a
handle raf (message_received m) a = receive raf m a
handle raf (discovery_found server) a = on_store (add_discovered_server server) a
handle raf (discovery_lost id) a = on_store (remove_discovered_server id) a
handle raf (tail_started r) a = on_store (set_tail_active (ref_key r) true) a
handle raf (tail_stopped r) a = on_store (set_tail_active (ref_key r) false) a
handle raf (replay_progress p) a = on_store (set_replay_progress p.id p) a

-- The poll of the connection every five seconds, and the cleanup of the effect.
pub check_connection : Bool → App → App
check_connection open_now a = on_ui (set_ws_connected open_now) a

pub unmount : App → App
unmount a = record a { raf_handle = none }

-- What a tail sends to the backend: `ws.send(type, { clusterId, … })`.
pub record Request : Type 0 where
  pub kind : String
  pub cluster_id : String
  pub target : String

abbrev is_blank : String → String → Bool
is_blank cluster target = str_eq cluster "" || str_eq target ""

abbrev starting : String → String → String → String → App → App × List Request
starting kind key cluster target a = if is_blank cluster target then (a, []) else (
  on_store (set_tail_active key true) a,
  record { kind = kind; cluster_id = cluster; target = target } ∷ [],
)

abbrev stopping : String → String → String → String → App → App × List Request
stopping kind key cluster target a = if is_blank cluster target then (a, []) else (
  on_store (set_tail_active key false) a,
  record { kind = kind; cluster_id = cluster; target = target } ∷ [],
)

abbrev clearing : String → App → App
clearing key a = record a { store = clear_tail key a.store; pending = erase key a.pending }

-- `useTail`.
pub tail_start : String → String → App → App × List Request
tail_start cluster stream = starting "tail.start" (stream_key cluster stream) cluster stream

pub tail_stop : String → String → App → App × List Request
tail_stop cluster stream = stopping "tail.stop" (stream_key cluster stream) cluster stream

pub tail_clear : String → String → App → App
tail_clear cluster stream = clearing (stream_key cluster stream)

-- `useTailSubject`.
pub subject_start : String → String → App → App × List Request
subject_start cluster subject =
    starting "tail.subject.start" (subject_key cluster subject) cluster subject

pub subject_stop : String → String → App → App × List Request
subject_stop cluster subject =
    stopping "tail.subject.stop" (subject_key cluster subject) cluster subject

pub subject_clear : String → String → App → App
subject_clear cluster subject = clearing (subject_key cluster subject)
