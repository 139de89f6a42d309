-- ===== src/Topology/Tests.antt =====
-- Two gateways to one cluster.
use nats_ui.Prelude.{◌≡◌, refl, true, none, some, List, [], ◌∷◌, lookup, insert}
use nats_ui.Types.Cluster.{GatewayConn, GatewayDirection, outbound, inbound}
use nats_ui.Topology.{merge_gateways}
use nats_ui.Topology.Gateways.{summary, conns_to, merge_gateways-summary}

abbrev conn : GatewayDirection → GatewayConn
conn direction = record {
  server_id = "s";
  server_name = "s";
  remote_cluster = "east";
  direction = direction;
  configured = true;
  num_connections = some 2;
  ip = none;
  port = none;
  rtt_ms = some 7;
  healthy = true;
}

abbrev conns : List GatewayConn
conns = conn outbound ∷ conn inbound ∷ []

link_test :
    lookup "east" (merge_gateways conns [])
    ≡ some
        (record { remote = "east"; outbound = true; inbound = true; connections = 4; rtt_ms = 7 })
unfolding merge_gateways lookup insert
link_test = refl

merge_gateways-summary_example :
    lookup "east" (merge_gateways conns []) ≡ summary "east" (conns_to "east" conns)
merge_gateways-summary_example = merge_gateways-summary conns "east"
