-- ===== src/Shell/Bar.antt =====
-- The bar at the top, frontend/src/components/layout/TopBar.tsx: what it sums up of the clusters, and
-- the logout. `Object.values` are the values of the dictionary.
use nats_ui.Prelude.{
  ℕ, ◌+◌, ◌≡◌, refl, ◌↔◌, inl, inr, Bool, true, false, not, none, some, List, [], ◌∷◌, ◌++◌, map,
  any, last?, Dict, All, if◌then◌else◌, Bool-cases, arith,
}
use nats_ui.Types.Cluster.{ClusterHealth, ClusterInfo, ok, degraded, critical}
use nats_ui.Types.Messages.{ThroughputPoint}
use nats_ui.Store.Ui.{Page, get_token, clear_auth}
use nats_ui.Socket.{Browser, Client, Effect, disconnect, on_close}
use nats_ui.Socket.Lifecycle.{on_close-manual, disconnect-is_manual_close}
use nats_ui.Store.Ui.Auth.{clear_auth-parts}

abbrev is_ok : ClusterHealth → Bool
is_ok ok = true
is_ok _ = false

abbrev pub is_critical : ClusterHealth → Bool
is_critical critical = true
is_critical _ = false

-- `Object.values(clusters)`.
abbrev pub cluster_list : Dict ClusterInfo → List ClusterInfo
cluster_list clusters = map (λ e. e.1) clusters

-- `every` and `some` over the clusters.
pub cluster_health : Dict ClusterInfo → ClusterHealth
cluster_health clusters =
    if not (any (λ c. not (is_ok c.health)) (cluster_list clusters))
    then ok
    else if any (λ c. is_critical c.health) (cluster_list clusters)
    then critical
    else degraded

-- The messages of the last point of each cluster.
abbrev last_msgs : List ThroughputPoint → ℕ
last_msgs pts = elim (last? pts) [ none ↦ 0 | some p ↦ p.in_msgs + p.out_msgs ]

pub total_msgs : Dict (List ThroughputPoint) → ℕ
total_msgs [] = 0
total_msgs ((id, pts) ∷ rest) = last_msgs pts + total_msgs rest

-- `handleLogout`: the socket's client, its effects, and the page.
pub handle_logout : Client → Page → (Client × List Effect) × Page
handle_logout c p = (disconnect c, clear_auth p)

-- What the close events `bs` make the client do.
abbrev pub close_effects : List Browser → Client → List Effect
close_effects [] c = []
close_effects (b ∷ bs) c = (on_close b c).1 ++ close_effects bs (on_close b c).0

close_effects-manual :
    (bs : List Browser) (c : Client) → c.is_manual_close ≡ true → close_effects bs c ≡ []
close_effects-manual [] c h = refl
close_effects-manual (b ∷ bs) c h =
    let (quiet, still) = on_close-manual b c h in
    rw (quiet, close_effects-manual bs (on_close b c).0 still) refl

-- A logout forgets the token and the clusters, and no number of close events of sockets makes the
-- client start a timer or open a socket again.
pub handle_logout-quiet :
    (c : Client) (p : Page) (bs : List Browser)
    → let r = handle_logout c p in
      (close_effects bs r.0.0 ≡ [])
      × (get_token r.1.storage ≡ none)
      × (r.1.ui.is_authenticated ≡ false)
      × (r.1.ui.active_clusters ≡ [])
unfolding handle_logout
handle_logout-quiet c p bs =
    let (token, auth, clusters) = clear_auth-parts p in
    (close_effects-manual bs (disconnect c).0 (disconnect-is_manual_close c), token, auth, clusters)

ok-of_is_ok : (h : ClusterHealth) → not (is_ok h) ≡ false → h ≡ ok
ok-of_is_ok h e = ground arith

health-All_ok :
    (cs : List ClusterInfo)
    → any (λ c. not (is_ok c.health)) cs ≡ false
    → All (λ c. c.health ≡ ok) cs
health-All_ok [] e = tt
health-All_ok (c ∷ cs) e = elim (Bool-cases (not (is_ok c.health))) [
  | inl bad ↦ absurd (ground (arith, bad, e))
  | inr good ↦ (ok-of_is_ok c.health good, health-All_ok cs (ground (arith, good, e)))
]

none_bad :
    (cs : List ClusterInfo)
    → All (λ c. c.health ≡ ok) cs
    → (any (λ c. not (is_ok c.health)) cs ≡ false) × (any (λ c. is_critical c.health) cs ≡ false)
none_bad [] h = (refl, refl)
none_bad (c ∷ cs) h = rw h.0 (none_bad cs h.1)

abbrev shown : Bool → Bool → ClusterHealth
shown bad crit = if not bad then ok else if crit then critical else degraded

shown_ok : (bad crit : Bool) → (shown bad crit ≡ ok) ↔ (bad ≡ false)
shown_ok bad crit = ground arith

shown_critical : (bad crit : Bool) → (shown bad crit ≡ critical) ↔ ((bad ≡ true) × (crit ≡ true))
shown_critical bad crit = ground arith

some_bad :
    (cs : List ClusterInfo)
    → any (λ c. is_critical c.health) cs ≡ true
    → any (λ c. not (is_ok c.health)) cs ≡ true
some_bad cs e = elim (Bool-cases (any (λ c. not (is_ok c.health)) cs)) [
  | inl bad ↦ bad
  | inr good ↦ absurd (ground (arith, e, (none_bad cs (health-All_ok cs good)).1))
]

-- The health that is shown is ok exactly where every cluster's is, and critical exactly where some
-- cluster's is.
pub cluster_health-worst :
    (clusters : Dict ClusterInfo)
    → ((cluster_health clusters ≡ ok) ↔ All (λ c. c.health ≡ ok) (cluster_list clusters))
      × ((cluster_health clusters ≡ critical)
          ↔ (any (λ c. is_critical c.health) (cluster_list clusters) ≡ true))
unfolding cluster_health
cluster_health-worst clusters =
    let cs = cluster_list clusters in
    let bad = any (λ c. not (is_ok c.health)) cs in
    let crit = any (λ c. is_critical c.health) cs in
    (
      (
        λ e. health-All_ok cs ((shown_ok bad crit).0 e),
        λ h. (shown_ok bad crit).1 (none_bad cs h).0,
      ),
      (λ e. ((shown_critical bad crit).0 e).1, λ e. (shown_critical bad crit).1 (some_bad cs e, e)),
    )
