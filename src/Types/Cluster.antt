-- ===== src/Types/Cluster.antt =====
-- frontend/src/types/index.ts. Clusters: nodes, routes, gateways and leaf nodes.
use nats_ui.Prelude.{ℕ, String, Bool, Option, List}

pub data ClusterHealth : Type 0 where
  ok degraded critical unknown : ClusterHealth

pub data NodeRole : Type 0 where
  leader follower candidate standalone : NodeRole

pub record NodeInfo : Type 0 where
  pub id : String
  pub name : String
  pub host : String
  pub port : ℕ
  pub role : NodeRole
  pub clients : ℕ
  pub subscriptions : ℕ
  pub in_msgs : ℕ
  pub out_msgs : ℕ
  pub in_bytes : ℕ
  pub out_bytes : ℕ
  pub slow_clients : ℕ
  pub routes : ℕ
  pub uptime : String
  pub version : String
  pub health : ClusterHealth
  pub jetstream : Bool

pub record RouteInfo : Type 0 where
  pub from : String
  pub to : String
  pub latency_ms : ℕ
  pub healthy : Bool

pub data GatewayDirection : Type 0 where
  outbound inbound : GatewayDirection

pub record GatewayConn : Type 0 where
  pub server_id : String
  pub server_name : String
  pub remote_cluster : String
  pub direction : GatewayDirection
  pub configured : Bool
  pub num_connections : Option ℕ
  pub ip : Option String
  pub port : Option ℕ
  pub rtt_ms : Option ℕ
  pub healthy : Bool

pub record LeafNodeConn : Type 0 where
  pub server_id : String
  pub server_name : String
  pub name : String
  pub account : String
  pub ip : Option String
  pub port : Option ℕ
  pub rtt_ms : Option ℕ
  pub subscriptions : ℕ
  pub in_msgs : ℕ
  pub out_msgs : ℕ
  pub in_bytes : ℕ
  pub out_bytes : ℕ

pub record ClusterInfo : Type 0 where
  pub id : String
  pub name : String
  pub nodes : List NodeInfo
  pub routes : List RouteInfo
  pub gateways : Option (List GatewayConn)
  pub leaf_nodes : Option (List LeafNodeConn)
  pub health : ClusterHealth
  pub num_nodes : ℕ
