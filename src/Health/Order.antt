-- ===== src/Health/Order.antt =====
-- The order of the alerts: by severity, and as they are found within one severity.
use nats_ui.Prelude.{
  ◌≤◌, ◌<◌, ◌≡◌, refl, sym, ◌∙◌, ap, Option, List, [], ◌∷◌, ◌++◌, filter, All, All-append, ==_iff,
  le→leb, lt→leb, arith, ◌⊎◌, inl, inr, Bool-cases,
}
use nats_ui.Types.Cluster.{ClusterInfo}
use nats_ui.Types.Streams.{StreamInfo}
use nats_ui.Format.{Floats}
use nats_ui.Health.{
  Severity, critical_alert, warning, info, Alert, rank, insert_alert, sort_alerts, has_severity,
  StreamConsumers, found_alerts, compute_alerts,
}

insert_pass :
    (a : Alert) (xs ys : List Alert)
    → All (λ b. rank b.severity < rank a.severity) xs
    → insert_alert a (xs ++ ys) ≡ xs ++ insert_alert a ys
unfolding insert_alert
insert_pass a [] ys h = refl
insert_pass a (x ∷ xs) ys h =
    rw (lt→leb (rank a.severity) (rank x.severity) h.0) (ap (x ∷◌) (insert_pass a xs ys h.1))

insert_front :
    (a : Alert) (ys : List Alert)
    → All (λ b. rank a.severity ≤ rank b.severity) ys
    → insert_alert a ys ≡ a ∷ ys
unfolding insert_alert
insert_front a [] h = refl
insert_front a (y ∷ ys) h = rw (le→leb (rank a.severity) (rank y.severity) h.0) refl

-- The alerts of one severity, in their order.
abbrev pub of_severity : Severity → List Alert → List Alert
of_severity v alerts = filter (has_severity v) alerts

of_severity-All :
    (P : Alert → Type 0) (v : Severity) (alerts : List Alert)
    → ((a : Alert) → rank a.severity ≡ rank v → P a)
    → All P (of_severity v alerts)
of_severity-All P v [] h = tt
of_severity-All P v (a ∷ rest) h = elim (Bool-cases (has_severity v a)) [
  | inl e ↦ rw e (h a ((==_iff (rank a.severity) (rank v)).0 e), of_severity-All P v rest h)
  | inr e ↦ rw e (of_severity-All P v rest h)
]

rank-cases : (v : Severity) → (rank v ≡ 0) ⊎ ((rank v ≡ 1) ⊎ (rank v ≡ 2))
unfolding rank
rank-cases critical_alert = inl refl
rank-cases warning = inr (inl refl)
rank-cases info = inr (inr refl)

-- The list that `sort` is to give.
abbrev pub by_severity : List Alert → List Alert
by_severity alerts =
    of_severity critical_alert alerts ++ (of_severity warning alerts ++ of_severity info alerts)

insert_alert-by_severity :
    (a : Alert) (rest : List Alert) → insert_alert a (by_severity rest) ≡ by_severity (a ∷ rest)
unfolding rank
insert_alert-by_severity a rest =
    let c : List Alert = of_severity critical_alert rest in
    let w : List Alert = of_severity warning rest in
    let i : List Alert = of_severity info rest in
    elim (rank-cases a.severity) [
      | inl e ↦
          insert_front a (c ++ (w ++ i)) (
            All-append _ c (w ++ i) (of_severity-All _ critical_alert rest (λ b k. omega arith)) (
              All-append _ w i (of_severity-All _ warning rest (λ b k. omega arith))
                (of_severity-All _ info rest (λ b k. omega arith))))
          ∙ sym (rw e refl)
      | inr (inl e) ↦
          insert_pass a c (w ++ i) (of_severity-All _ critical_alert rest (λ b k. omega arith))
          ∙ ap (c ++◌) (
              insert_front a (w ++ i) (
                All-append _ w i (of_severity-All _ warning rest (λ b k. omega arith))
                  (of_severity-All _ info rest (λ b k. omega arith))))
          ∙ sym (rw e refl)
      | inr (inr e) ↦
          insert_pass a c (w ++ i) (of_severity-All _ critical_alert rest (λ b k. omega arith))
          ∙ ap (c ++◌) (
              insert_pass a w i (of_severity-All _ warning rest (λ b k. omega arith))
              ∙ ap (w ++◌) (insert_front a i (of_severity-All _ info rest (λ b k. omega arith))))
          ∙ sym (rw e refl)
    ]

sort_alerts-by_severity : (alerts : List Alert) → sort_alerts alerts ≡ by_severity alerts
unfolding sort_alerts
sort_alerts-by_severity [] = refl
sort_alerts-by_severity (a ∷ rest) =
    ap (insert_alert a) (sort_alerts-by_severity rest) ∙ insert_alert-by_severity a rest

-- The alerts are the critical ones, then the warnings, then the others, and within each severity they
-- stand as they were found: none is lost and none added.
pub compute_alerts-by_severity :
    (fl : Floats) (streams : List StreamInfo) (by_stream : List StreamConsumers)
    (topology : Option ClusterInfo)
    → compute_alerts fl streams by_stream topology
      ≡ by_severity (found_alerts fl streams by_stream topology)
unfolding compute_alerts
compute_alerts-by_severity fl streams by_stream topology =
    sort_alerts-by_severity (found_alerts fl streams by_stream topology)
