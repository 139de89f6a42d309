-- ===== src/Topology/Gateways.antt =====
-- The link of a remote cluster is what its connections add up to.
use nats_ui.Prelude.{
  ℕ, ◌+◌, max, String, str_eq, str_eq_iff, ◌≡◌, refl, sym, ap, ◌∙◌, inl, inr, Bool, true, false,
  not, ◌||◌, Option, none, some, or_else, List, [], ◌∷◌, any, filter, Dict, lookup, insert,
  lookup-insert, if◌then◌else◌, Bool-cases, arith,
}
use nats_ui.Types.Cluster.{GatewayConn}
use nats_ui.Topology.{
  GatewayLink, new_link, is_outbound, connections_of, greater_rtt, add_conn, merge_gateways,
}

-- The connections to one remote cluster.
abbrev pub conns_to : String → List GatewayConn → List GatewayConn
conns_to r gws = filter (λ g. str_eq g.remote_cluster r) gws

abbrev pub sum_connections : List GatewayConn → ℕ
sum_connections [] = 0
sum_connections (g ∷ gs) = connections_of g.num_connections + sum_connections gs

abbrev pub max_rtt : List GatewayConn → ℕ
max_rtt [] = 0
max_rtt (g ∷ gs) = max (or_else g.rtt_ms 0) (max_rtt gs)

-- The link that connections make of the link `l`: a direction is there where some connection has it,
-- the connections are added, and the time is the greatest.
abbrev pub with_conns : GatewayLink → List GatewayConn → GatewayLink
with_conns l gs = record {
  remote = l.remote;
  outbound = l.outbound || any (λ g. is_outbound g.direction) gs;
  inbound = l.inbound || any (λ g. not (is_outbound g.direction)) gs;
  connections = l.connections + sum_connections gs;
  rtt_ms = max l.rtt_ms (max_rtt gs);
}

-- The link of the remote cluster `r`, where it has one.
abbrev pub summary : String → List GatewayConn → Option GatewayLink
summary r [] = none
summary r (g ∷ gs) = some (with_conns (new_link r) (g ∷ gs))

or_assoc : (a b c : Bool) → (if a then true else b) || c ≡ (b || (a || c))
or_assoc a b c = ground arith

or_assoc' : (a b c : Bool) → (if a then b else true) || c ≡ (b || (not a || c))
or_assoc' a b c = ground arith

max_assoc : (o : Option ℕ) (n m : ℕ) → max (greater_rtt o n) m ≡ max n (max (or_else o 0) m)
max_assoc none n m = omega arith
max_assoc (some k) n m = ground arith

with_conns-add_conn :
    (g : GatewayConn) (l : GatewayLink) (gs : List GatewayConn)
    → with_conns (add_conn g l) gs ≡ with_conns l (g ∷ gs)
with_conns-add_conn g l gs =
    let count : l.connections + connections_of g.num_connections + sum_connections gs
        ≡ l.connections + (connections_of g.num_connections + sum_connections gs) =
      omega arith in
    λ i. record {
      remote = l.remote;
      outbound =
          or_assoc (is_outbound g.direction) l.outbound (any (λ g. is_outbound g.direction) gs) i;
      inbound =
          or_assoc' (is_outbound g.direction) l.inbound
            (any (λ g. not (is_outbound g.direction)) gs) i;
      connections = count i;
      rtt_ms = max_assoc g.rtt_ms l.rtt_ms (max_rtt gs) i;
    }

-- What a link becomes with more connections, and what they make where there was none.
abbrev joined : String → Option GatewayLink → List GatewayConn → Option GatewayLink
joined r none gs = summary r gs
joined r (some l) gs = some (with_conns l gs)

joined-cons :
    (r : String) (o : Option GatewayLink) (g : GatewayConn) (gs : List GatewayConn)
    → joined r o (g ∷ gs) ≡ some (with_conns (or_else o (new_link r)) (g ∷ gs))
joined-cons r none g gs = refl
joined-cons r (some l) g gs = refl

or_false : (b : Bool) → b || false ≡ b
or_false true = refl
or_false false = refl

joined-nil : (r : String) (o : Option GatewayLink) → joined r o [] ≡ o
joined-nil r none = refl
joined-nil r (some l) =
    let count : l.connections + 0 ≡ l.connections = omega arith in
    let time : max l.rtt_ms 0 ≡ l.rtt_ms = omega arith in
    λ i. some (record {
      remote = l.remote;
      outbound = or_false l.outbound i;
      inbound = or_false l.inbound i;
      connections = count i;
      rtt_ms = time i;
    })

-- One round of the loop, for the cluster that it concerns.
joined-same :
    (r : String) (g : GatewayConn) (gs : List GatewayConn) (m : Dict GatewayLink)
    → g.remote_cluster ≡ r
    → let link = or_else (lookup g.remote_cluster m) (new_link g.remote_cluster) in
      some (with_conns (add_conn g link) gs) ≡ joined r (lookup r m) (g ∷ gs)
joined-same r g gs m same =
    let link = or_else (lookup g.remote_cluster m) (new_link g.remote_cluster) in
    ap some (with_conns-add_conn g link gs)
    ∙ ap (λ k. some (with_conns (or_else (lookup k m) (new_link k)) (g ∷ gs))) same
    ∙ sym (joined-cons r (lookup r m) g gs)

lookup-merge_gateways :
    (gws : List GatewayConn) (m : Dict GatewayLink) (r : String)
    → lookup r (merge_gateways gws m) ≡ joined r (lookup r m) (conns_to r gws)
unfolding merge_gateways
lookup-merge_gateways [] m r = sym (joined-nil r (lookup r m))
lookup-merge_gateways (g ∷ gs) m r =
    let link = or_else (lookup g.remote_cluster m) (new_link g.remote_cluster) in
    let after = lookup-insert g.remote_cluster r (add_conn g link) m in
    lookup-merge_gateways gs (insert g.remote_cluster (add_conn g link) m) r
    ∙ ap (λ o. joined r o (conns_to r gs)) after
    ∙ elim (Bool-cases (str_eq g.remote_cluster r)) [
      | inl e ↦ rw e (joined-same r g (conns_to r gs) m ((str_eq_iff g.remote_cluster r).0 e))
      | inr e ↦ rw e refl
    ]

-- A remote cluster has a link exactly where some connection goes to it. Whatever the order of the
-- connections, its link has the directions that they have, the sum of what they count, and the
-- greatest of their times.
pub merge_gateways-summary :
    (gws : List GatewayConn) (r : String)
    → lookup r (merge_gateways gws []) ≡ summary r (conns_to r gws)
unfolding lookup
merge_gateways-summary gws r = lookup-merge_gateways gws [] r
