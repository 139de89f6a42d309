-- ===== src/Health/Tests.antt =====
-- The alerts of one node, of which the second is worse.
use nats_ui.Prelude.{ℕ, String, ◌≡◌, refl, true, none, some, [], ◌∷◌, decimal, map}
use nats_ui.Types.Cluster.{ClusterHealth, NodeRole, ClusterInfo, NodeInfo}
use nats_ui.Format.{Floats}
use nats_ui.Health.{pct, found_alerts, compute_alerts}
use nats_ui.Health.Order.{by_severity, compute_alerts-by_severity}

abbrev plain_floats : Floats
plain_floats = record {
  to_fixed = λ n d. decimal n;
  short_fixed = λ n d. decimal n;
  log_quotient = λ n k. 1;
  pretty_json = λ s. none;
  atob = λ s. none;
  to_upper_case = λ s. s;
}

abbrev node : String → ClusterHealth → ℕ → NodeInfo
node id health slow_clients = record {
  id = id;
  name = id;
  host = "h";
  port = 4222;
  role = NodeRole.leader;
  clients = 0;
  subscriptions = 0;
  in_msgs = 0;
  out_msgs = 0;
  in_bytes = 0;
  out_bytes = 0;
  slow_clients = slow_clients;
  routes = 0;
  uptime = "";
  version = "";
  health = health;
  jetstream = true;
}

abbrev two_nodes : ClusterInfo
two_nodes = record {
  id = "c";
  name = "c";
  nodes = node "a" ClusterHealth.degraded 2 ∷ node "b" ClusterHealth.critical 0 ∷ [];
  routes = [];
  gateways = none;
  leaf_nodes = none;
  health = ClusterHealth.ok;
  num_nodes = 2;
}

alert_tests :
    (map (λ a. a.id) (compute_alerts plain_floats [] [] (some two_nodes))
      ≡ "node-b" ∷ "node-a" ∷ "node-slow-a" ∷ [])
    × (pct 845 1000 ≡ 85)
unfolding compute_alerts pct
alert_tests = (refl, refl)

compute_alerts-by_severity_example :
    compute_alerts plain_floats [] [] (some two_nodes)
    ≡ by_severity (found_alerts plain_floats [] [] (some two_nodes))
compute_alerts-by_severity_example = compute_alerts-by_severity plain_floats [] [] (some two_nodes)
