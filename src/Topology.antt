-- ===== src/Topology.antt =====
-- The gateways of frontend/src/components/cluster/ClusterTopology.tsx, merged by remote cluster.
-- `before` is `localeCompare` at most 0; `Array.sort`, which keeps the order of equal elements, is
-- insertion.
pub mod Gateways
mod Tests
use nats_ui.Prelude.{
  ℕ, ◌+◌, String, Bool, true, false, ◌&&◌, Option, none, some, or_else, List, [], ◌∷◌, map, Dict,
  lookup, insert, ltb, if◌then◌else◌,
}
use nats_ui.Types.Cluster.{GatewayConn, GatewayDirection, outbound, inbound}

pub record GatewayLink : Type 0 where
  pub remote : String
  pub outbound : Bool
  pub inbound : Bool
  pub connections : ℕ
  pub rtt_ms : ℕ

abbrev pub new_link : String → GatewayLink
new_link remote = record {
  remote = remote;
  outbound = false;
  inbound = false;
  connections = 0;
  rtt_ms = 0;
}

abbrev pub is_outbound : GatewayDirection → Bool
is_outbound outbound = true
is_outbound inbound = false

-- `g.numConnections && g.numConnections > 0 ? g.numConnections : 1`.
abbrev pub connections_of : Option ℕ → ℕ
connections_of none = 1
connections_of (some n) = if ltb 0 n then n else 1

-- The greater of the times, where the connection has one that is not 0.
abbrev pub greater_rtt : Option ℕ → ℕ → ℕ
greater_rtt none n = n
greater_rtt (some m) n = if ltb 0 m && ltb n m then m else n

-- One round of the loop on a link.
abbrev pub add_conn : GatewayConn → GatewayLink → GatewayLink
add_conn g l = record l {
  outbound = if is_outbound g.direction then true else l.outbound;
  inbound = if is_outbound g.direction then l.inbound else true;
  connections = l.connections + connections_of g.num_connections;
  rtt_ms = greater_rtt g.rtt_ms l.rtt_ms;
}

-- The loop over the connections, on `byRemote`.
pub merge_gateways : List GatewayConn → Dict GatewayLink → Dict GatewayLink
merge_gateways [] m = m
merge_gateways (g ∷ gs) m =
    let link = or_else (lookup g.remote_cluster m) (new_link g.remote_cluster) in
    merge_gateways gs (insert g.remote_cluster (add_conn g link) m)

pub insert_link : (String → String → Bool) → GatewayLink → List GatewayLink → List GatewayLink
insert_link before l [] = l ∷ []
insert_link before l (k ∷ ks) =
    let rest = insert_link before l ks in
    if before l.remote k.remote then l ∷ (k ∷ ks) else k ∷ rest

pub sort_links : (String → String → Bool) → List GatewayLink → List GatewayLink
sort_links before [] = []
sort_links before (l ∷ ls) = insert_link before l (sort_links before ls)

pub group_gateways : (String → String → Bool) → List GatewayConn → List GatewayLink
group_gateways before gws = sort_links before (map (λ e. e.1) (merge_gateways gws []))
