-- ===== src/Health.antt =====
-- frontend/src/components/health/HealthPanel.tsx: the alerts that `computeAlerts` finds in streams,
-- consumers and nodes, their counts, and where an alert leads. Percentages are those of exact
-- numbers; `Array.sort`, which keeps the order of equal elements, is insertion.
pub mod Order
mod Tests
use nats_ui.Prelude.{
  pos, natural, ℕ, ◌+◌, ◌*◌, ◌/◌, String, str_eq, ◌^+◌, decimal, Bool, true, false, ◌&&◌, Option,
  none, some, or_else, List, [], ◌∷◌, ◌++◌, length, filter, ltb, leb, ◌==◌, if◌then◌else◌,
}
use nats_ui.Types.Cluster.{critical, degraded, NodeInfo, ClusterInfo}
use nats_ui.Types.Streams.{StreamInfo}
use nats_ui.Types.Consumers.{redelivery_storm, dead, stuck, slow, lagging, ConsumerInfo}
use nats_ui.Types.Views.{View}
use nats_ui.Store.Ui.{UiState, set_view, set_active_stream}
use nats_ui.Store.Views.{set_consumer_state}
use nats_ui.Format.{Floats, format_number, format_bytes}

pub data Severity : Type 0 where
  critical_alert warning info : Severity

pub record Nav : Type 0 where
  pub view : View
  pub stream : Option String
  pub consumer : Option String

pub record Alert : Type 0 where
  pub id : String
  pub severity : Severity
  pub title : String
  pub entity : String
  pub detail : String
  pub nav : Option Nav

-- `RANK`.
pub rank : Severity → ℕ
rank critical_alert = 0
rank warning = 1
rank info = 2

-- `Math.round((a / b) * 100)`, which rounds a half up.
pub pct : ℕ → ℕ → ℕ
pct a b = if ltb 0 b then (200 * a + b) / (2 * b) else 0

abbrev topology_nav : Option Nav
topology_nav = some (record { view = View.topology; stream = none; consumer = none })

abbrev node_alert : String → Severity → String → String → NodeInfo → Alert
node_alert prefix severity title detail n = record {
  id = prefix ^+ n.id;
  severity = severity;
  title = title;
  entity = "node " ^+ n.name;
  detail = detail;
  nav = topology_nav;
}

abbrev node_health : NodeInfo → List Alert
node_health n = elim n.health [
  | critical ↦
      node_alert "node-" critical_alert "Node unhealthy" "Server reports a critical state." n ∷ []
  | degraded ↦ node_alert "node-" warning "Node degraded" "Server health is degraded." n ∷ []
  | _ ↦ []
]

abbrev slow_clients_detail : NodeInfo → String
slow_clients_detail n = decimal n.slow_clients ^+ " slow client(s) detected on this server."

pub node_alerts : NodeInfo → List Alert
node_alerts n =
    node_health n
    ++ (if ltb 0 n.slow_clients
        then node_alert "node-slow-" warning "Slow consumers" (slow_clients_detail n) n ∷ []
        else [])

abbrev stream_alert : String → Severity → String → String → StreamInfo → Alert
stream_alert prefix severity title detail s = record {
  id = prefix ^+ s.config.name;
  severity = severity;
  title = title;
  entity = "stream " ^+ s.config.name;
  detail = detail;
  nav = some (record { view = View.streams; stream = some s.config.name; consumer = none });
}

abbrev stream_health : StreamInfo → List Alert
stream_health s =
    if str_eq s.health "critical"
    then stream_alert "stream-" critical_alert "Stream unhealthy" "Stream reports a critical state."
        s
      ∷ []
    else if str_eq s.health "degraded"
    then stream_alert "stream-" warning "Stream degraded"
        "Stream health is degraded (possibly under-replicated)." s
      ∷ []
    else []

-- `max > 0 && pct(n, max) >= limit`; a negative maximum counts as 0, for which the test fails too.
abbrev pub is_near : ℕ → ℕ → ℕ → Bool
is_near limit n max = ltb 0 max && leb limit (pct n max)

abbrev messages_detail : Floats → StreamInfo → ℕ → String
messages_detail fl s max =
    decimal (pct s.state.messages max)
    ^+ ("% of max-msgs ("
        ^+ (format_number fl s.state.messages
            ^+ ("/" ^+ (format_number fl max ^+ ") — old messages will be discarded."))))

abbrev bytes_detail : Floats → StreamInfo → ℕ → String
bytes_detail fl s max =
    decimal (pct s.state.bytes max)
    ^+ ("% of max-bytes ("
        ^+ (format_bytes fl s.state.bytes ^+ ("/" ^+ (format_bytes fl max ^+ ")."))))

pub stream_alerts : Floats → StreamInfo → List Alert
stream_alerts fl s =
    let max_msgs = natural (or_else s.config.max_msgs (pos 0)) in
    let max_bytes = natural (or_else s.config.max_bytes (pos 0)) in
    stream_health s
    ++ (if is_near 85 s.state.messages max_msgs
        then stream_alert "stream-msgs-" warning "Stream near message limit"
            (messages_detail fl s max_msgs) s
          ∷ []
        else [])
    ++ (if is_near 85 s.state.bytes max_bytes
        then stream_alert "stream-bytes-" warning "Stream near size limit"
            (bytes_detail fl s max_bytes) s
          ∷ []
        else [])

abbrev consumer_alert : String → Severity → String → String → String → ConsumerInfo → Alert
consumer_alert prefix severity title detail stream c = record {
  id = prefix ^+ (stream ^+ ("-" ^+ c.name));
  severity = severity;
  title = title;
  entity = "consumer " ^+ c.name;
  detail = detail;
  nav = some (record { view = View.consumers; stream = some stream; consumer = some c.name });
}

abbrev no_progress_detail : String
no_progress_detail = "No progress — nothing is acking. Check the subscriber."

abbrev storm_detail : Floats → ConsumerInfo → String
storm_detail fl c =
    format_number fl c.num_redelivered
    ^+ " redeliveries — messages keep failing. Check the handler / ACK wait."

abbrev behind_detail : Floats → String → ConsumerInfo → String
behind_detail fl stream c =
    "Falling behind — lag " ^+ (format_number fl c.lag ^+ (" on stream " ^+ (stream ^+ ".")))

abbrev lag_detail : Floats → String → ConsumerInfo → String
lag_detail fl stream c =
    format_number fl c.lag ^+ (" messages behind on stream " ^+ (stream ^+ "."))

abbrev consumer_health : Floats → String → ConsumerInfo → List Alert
consumer_health fl stream c = elim c.health [
  | redelivery_storm ↦
      consumer_alert "cons-" critical_alert "Redelivery storm" (storm_detail fl c) stream c ∷ []
  | dead ↦ consumer_alert "cons-" critical_alert "Consumer dead" no_progress_detail stream c ∷ []
  | stuck ↦ consumer_alert "cons-" critical_alert "Consumer stuck" no_progress_detail stream c ∷ []
  | slow ↦ consumer_alert "cons-" warning "Slow consumer" (behind_detail fl stream c) stream c ∷ []
  | lagging ↦
      consumer_alert "cons-" warning "Consumer lagging" (behind_detail fl stream c) stream c ∷ []
  | _ ↦
      if ltb 50000 c.lag
      then consumer_alert "cons-lag-" warning "High lag" (lag_detail fl stream c) stream c ∷ []
      else []
]

abbrev ack_detail : Floats → ConsumerInfo → ℕ → String
ack_detail fl c max =
    decimal (pct c.num_ack_pending max)
    ^+ ("% of max-ack-pending ("
        ^+ (format_number fl c.num_ack_pending
            ^+ ("/" ^+ (format_number fl max ^+ ") — delivery will stall."))))

pub consumer_alerts : Floats → String → ConsumerInfo → List Alert
consumer_alerts fl stream c =
    let max_ack = natural (or_else c.config.max_ack_pending (pos 0)) in
    consumer_health fl stream c
    ++ (if is_near 90 c.num_ack_pending max_ack
        then consumer_alert "cons-ack-" warning "ACK pending near max" (ack_detail fl c max_ack)
            stream c
          ∷ []
        else [])

pub record StreamConsumers : Type 0 where
  pub stream : String
  pub consumers : List ConsumerInfo

abbrev pub concat_map {ℓ} : {A : Type ℓ} → (A → List Alert) → List A → List Alert
concat_map f [] = []
concat_map f (x ∷ xs) = f x ++ concat_map f xs

-- `out.sort((a, b) => RANK[a.severity] - RANK[b.severity])`.
pub insert_alert : Alert → List Alert → List Alert
unfolding rank
insert_alert a [] = a ∷ []
insert_alert a (b ∷ bs) =
    let rest = insert_alert a bs in
    if leb (rank a.severity) (rank b.severity) then a ∷ b ∷ bs else b ∷ rest

pub sort_alerts : List Alert → List Alert
unfolding insert_alert
sort_alerts [] = []
sort_alerts (a ∷ rest) = insert_alert a (sort_alerts rest)

-- The alerts in the order in which `computeAlerts` finds them.
pub found_alerts : Floats → List StreamInfo → List StreamConsumers → Option ClusterInfo → List Alert
unfolding node_alerts stream_alerts consumer_alerts
found_alerts fl streams by_stream topology =
    elim topology [ none ↦ [] | some t ↦ concat_map node_alerts t.nodes ]
    ++ concat_map (stream_alerts fl) streams
    ++ concat_map (λ sc. concat_map (consumer_alerts fl sc.stream) sc.consumers) by_stream

pub compute_alerts :
    Floats → List StreamInfo → List StreamConsumers → Option ClusterInfo → List Alert
unfolding sort_alerts found_alerts
compute_alerts fl streams by_stream topology =
    sort_alerts (found_alerts fl streams by_stream topology)

abbrev pub has_severity : Severity → Alert → Bool
has_severity v a = rank a.severity == rank v

-- One of `counts`.
pub count_of : Severity → List Alert → ℕ
unfolding rank
count_of v alerts = length (filter (has_severity v) alerts)

abbrev is_view : View → View → Bool
is_view View.consumers View.consumers = true
is_view View.streams View.streams = true
is_view _ _ = false

abbrev filled : Option String → Option String
filled none = none
filled (some s) = if str_eq s "" then none else some s

abbrev select_consumer : Nav → UiState → UiState
select_consumer nav s = elim (filled nav.stream) [
  | none ↦ s
  | some stream ↦
      if is_view nav.view View.consumers
      then record s {
        view_states =
            set_consumer_state
              (record { selected_stream = some stream; selected_consumer = some nav.consumer })
              s.view_states;
      }
      else s
]

abbrev select_stream : Nav → UiState → UiState
select_stream nav s = elim (filled nav.stream) [
  | none ↦ s
  | some stream ↦ if is_view nav.view View.streams then set_active_stream (some stream) s else s
]

-- `goTo`.
pub go_to : Alert → UiState → UiState
go_to a s = elim a.nav [
  | none ↦ s
  | some nav ↦ set_view nav.view (select_stream nav (select_consumer nav s))
]
