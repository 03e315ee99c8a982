-- ===== src/Daemon/Quiet.antt =====
-- What the running daemon ever serves, as `main` starts it: the manager is never sent an update, so no
-- snapshot has a pod.
use mathlib.Core.Path.{subst}
use koprobe.Aggregator.History.{latest_snapshot-All}
use koprobe.Baselines.{check_all}
use koprobe.Slack.{Exporter, new_slack, check_anomalies}
use koprobe.Prelude.{
  All-append, ◌==◌, not, if◌then◌else◌, ◌≡◌, refl, sym, ap, ◌∙◌, All, ℤ, Text, nat_eq, text_eq,
  Option, none, some, List, [],
}
use koprobe.Float.{Double, nought}
use koprobe.GoMap.Ranging.{Order, visit-nil, insert_all}
use koprobe.Collector.{snapshot}
use koprobe.Pricing.{ResourcePrices}
use koprobe.Aggregator.{
  Aggregator, Snapshot, TeamCost, Orders, empty_snapshot, new_costs, build_snapshot, costs_at,
  snapshot_at, latest_snapshot,
}
use koprobe.Daemon.{Config, World, Daemon}
use koprobe.Daemon.Start.{launched}
use koprobe.Daemon.Steps.{
  Reach, launched_at, collected, priced, checked, Reach-collectors, Reach-Run, start-running,
}

module _ {F : Type 0} ⦃d : Double F⦄ where
  snapshot_at-eq-empty :
      (orders : Orders F) (now : ℤ) (prices : ResourcePrices F) (a : Aggregator F)
      → a.collectors.metrics ≡ []
      → snapshot_at orders now prices a ≡ empty_snapshot now
  unfolding snapshot_at costs_at snapshot insert_all new_costs build_snapshot
  snapshot_at-eq-empty orders now prices a h =
      rw (h, visit-nil orders.copying, visit-nil orders.raw, visit-nil orders.costs)

  -- a snapshot of no pods, whose total is 0
  abbrev pub IsEmpty : Snapshot F → Type 0
  IsEmpty s = (s.pod_costs ≡ []) × (s.team_costs ≡ []) × (s.total ≡ nought)

  Reach-All-IsEmpty :
      {cfg : Config} {w : World} {snaps : List (Snapshot F)} {x : Daemon F}
      → Reach cfg w snaps x
      → All IsEmpty snaps
  Reach-All-IsEmpty (launched_at h) = tt
  Reach-All-IsEmpty (collected {snaps = snaps} {x = x} orders asked now prices stale e r) =
      All-append IsEmpty snaps _ (Reach-All-IsEmpty r) (
        subst IsEmpty
            (sym (
              snapshot_at-eq-empty orders now prices x.aggregator
                (ap (λ m. m.metrics) (Reach-collectors r))))
            (refl, refl, refl),
        tt,
      )
  Reach-All-IsEmpty (priced http now busy r) = Reach-All-IsEmpty r
  Reach-All-IsEmpty (checked order now s e r) = Reach-All-IsEmpty r

  pub Reach-latest :
      {cfg : Config} {w : World} {snaps : List (Snapshot F)} {x : Daemon F} (now : ℤ)
      → Reach cfg w snaps x
      → IsEmpty (latest_snapshot now x.aggregator)
  Reach-latest now r =
      latest_snapshot-All IsEmpty now (refl, refl, refl) (Reach-All-IsEmpty r) (Reach-Run r)

  check_anomalies_nothing :
      (order : Order (Text × TeamCost F)) (snap : Snapshot F) (s : Exporter F)
      → snap.team_costs ≡ []
      → check_anomalies order snap s ≡ s
  unfolding check_anomalies check_all
  check_anomalies_nothing order snap s h = rw (h, visit-nil order)

  -- the exporter as it is made, if the configuration has a web hook
  abbrev pub fresh_slack : Config → Option (Exporter F)
  fresh_slack cfg = if not (cfg.slack_webhook == []) then some new_slack else none

  Reach-slack :
      {cfg : Config} {w : World} {snaps : List (Snapshot F)} {x : Daemon F}
      → Reach cfg w snaps x
      → x.slack ≡ fresh_slack cfg
  Reach-slack {cfg} {w} (launched_at {x = x} h) =
      let (e, made, same) = start-running cfg w x h in
      ap (λ y. y.slack) same ∙ (unfold launched in refl)
  Reach-slack (collected orders asked now prices stale e r) = Reach-slack r
  Reach-slack (priced http now busy r) = Reach-slack r
  Reach-slack (checked {x = x} order now s e r) =
      ap some
        (check_anomalies_nothing order (latest_snapshot now x.aggregator) s (Reach-latest now r).1)
      ∙ sym e
      ∙ Reach-slack r

  -- In every state that the daemon reaches from its start, every snapshot ever built and the one
  -- that is served are without pods and teams and have the total 0, and the exporter to Slack, if
  -- there is one, has no baseline and has sent no alert: nothing that `main` starts sends metrics.
  pub Reach-IsEmpty :
      {cfg : Config} {w : World} {snaps : List (Snapshot F)} {x : Daemon F} (now : ℤ)
      → Reach cfg w snaps x
      → All IsEmpty snaps × IsEmpty (latest_snapshot now x.aggregator) × (x.slack ≡ fresh_slack cfg)
  Reach-IsEmpty now r = (Reach-All-IsEmpty r, Reach-latest now r, Reach-slack r)
