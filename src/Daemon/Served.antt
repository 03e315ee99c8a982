-- ===== src/Daemon/Served.antt =====
-- What the servers of the running daemon answer, as `main` starts it.
use koprobe.Prelude.{
  length, Bool, ◌≡◌, refl, ap, ◌∙◌, Text, codes, text_eq, nat_eq, ℤ, List, [], ◌∷◌, ◌++◌, map,
}
use koprobe.Float.{Double, nought, ◌≺◌}
use koprobe.Float.Sums.{sum, tally}
use koprobe.GoMap.{Map, values}
use koprobe.GoMap.Ranging.{Order, visit-nil, nil-perm, insert_all}
use koprobe.Sorting.{Sorter}
use koprobe.Collector.{snapshot}
use koprobe.Aggregator.{
  Aggregator, Snapshot, TeamCost, PodCost, new_aggregator, new_costs, costs_at, collect_at, store,
  latest_snapshot, waste_report,
}
use koprobe.Api.{TeamEntry, team_entry, summary, by_team, by_pod, by_namespace, filter_pods, waste}
use koprobe.Api.Server.{
  Page, Reads, teams, namespaces, pods, wasted, handle_by_team, handle_by_pod, handle_by_namespace,
  handle_waste, handle_history, handle_summary, totals, pages,
}
use koprobe.Daemon.{Config, World, Daemon}
use koprobe.Daemon.Start.{launched}
use koprobe.Daemon.Steps.{
  Reach, launched_at, collected, priced, checked, Reach-collectors, start-running,
}
use koprobe.Daemon.Quiet.{IsEmpty, Reach-latest}
use mathlib.Core.List.{append-nil}
use koprobe.Prometheus.{cluster_samples, Value, amount, each, scrape}
use koprobe.Prometheus.Lines.{print_sample}
use koprobe.Prometheus.Server.{serve, write_samples}
use koprobe.Prometheus.Served.{serve-metrics}
use koprobe.Web.{Request, Handler}

sort-nil : {A : Type 0} (sorter : Sorter A) (less : A → A → Bool) → sorter.sort less [] ≡ []
sort-nil sorter less = nil-perm (sorter.sort-perm less []) refl

module _ {F : Type 0} ⦃d : Double F⦄ where
  Reach-pod_costs :
      {cfg : Config} {w : World} {snaps : List (Snapshot F)} {x : Daemon F}
      → Reach cfg w snaps x
      → x.aggregator.pod_costs ≡ []
  unfolding collect_at store costs_at snapshot insert_all new_costs
  Reach-pod_costs {cfg} {w} (launched_at {x = x} h) =
      let (e, made, same) = start-running cfg w x h in
      ap (λ y. y.aggregator.pod_costs) same ∙ (unfold launched new_aggregator in refl)
  Reach-pod_costs (collected {x = x} orders asked now prices stale e r) =
      rw (ap (λ m. m.metrics) (Reach-collectors r), visit-nil orders.copying, visit-nil orders.raw)
        refl
  Reach-pod_costs (priced http now busy r) = Reach-pod_costs r
  Reach-pod_costs (checked order now s e r) = Reach-pod_costs r

  -- the answers for a snapshot without pods

  summary-nil :
      (snap : Snapshot F)
      → IsEmpty snap
      → summary snap
        ≡ record { timestamp = snap.timestamp; total_cost = nought; pod_count = 0; team_count = 0 }
  unfolding summary
  summary-nil snap (no_pods, no_teams, zero_total) =
      ap
        (λ (x : List (PodCost F) × Map Text (TeamCost F) × F). record {
          timestamp = snap.timestamp;
          total_cost = x.2;
          pod_count = length x.0;
          team_count = length x.1;
        })
        (λ i. (no_pods i, no_teams i, zero_total i))

  by_team-nil :
      (order : Order (Text × TeamCost F)) (sorter : Sorter (TeamEntry F)) (snap : Snapshot F)
      → IsEmpty snap
      → by_team order sorter snap ≡ []
  unfolding by_team
  by_team-nil order sorter snap (_, none, _) =
      ap
        (λ m.
          sorter.sort (λ a b. b.total_cost ≺ a.total_cost)
            (map team_entry (values (order.visit m))))
        none
      ∙ ap (λ m. sorter.sort (λ a b. b.total_cost ≺ a.total_cost) (map team_entry (values m)))
          (visit-nil order)
      ∙ sort-nil sorter _

  by_namespace-nil : (snap : Snapshot F) → IsEmpty snap → by_namespace snap ≡ []
  unfolding by_namespace
  by_namespace-nil snap (none, _, _) =
      ap (tally (λ p. p.namespace) (λ p. p.total_cost)) none ∙ (unfold tally in refl)

  by_pod-nil :
      (sorter : Sorter (PodCost F)) (namespace team : Text) (snap : Snapshot F)
      → IsEmpty snap
      → by_pod sorter namespace team snap ≡ []
  unfolding by_pod filter_pods
  by_pod-nil sorter namespace team snap (none, _, _) =
      ap (λ l. sorter.sort (λ a b. b.total_cost ≺ a.total_cost) (filter_pods namespace team l)) none
      ∙ sort-nil sorter _

  waste-nil :
      (order : Order (Text × PodCost F)) (a : Aggregator F)
      → a.pod_costs ≡ []
      → waste order a ≡ ([], nought)
  unfolding waste waste_report sum
  waste-nil order a none = rw (none, visit-nil order) refl

  -- the pages of a daemon without pods
  abbrev pub empty_pages :
      (encode : Page F → Text) → Reads F → Aggregator F → Request → List (Text × Page F)
  empty_pages encode reads a req =
      let now = (latest_snapshot reads.now a).timestamp in
      (
        codes "/api/v1/costs/summary",
        totals (record { timestamp = now; total_cost = nought; pod_count = 0; team_count = 0 }),
      )
      ∷ (codes "/api/v1/costs/by-team", teams [] now)
      ∷ (codes "/api/v1/costs/by-namespace", namespaces [] now)
      ∷ (codes "/api/v1/costs/by-pod", pods [] now)
      ∷ (codes "/api/v1/costs/waste", wasted [] nought reads.now)
      ∷ (codes "/api/v1/costs/history", handle_history encode reads a req)
      ∷ []

  module _ {cfg : Config} {w : World} {snaps : List (Snapshot F)} {x : Daemon F}
      (r : Reach cfg w snaps x) where
    metrics_text :
        (digits : Value F → Text) (order : Order (Text × TeamCost F)) (now : ℤ)
        (unmatched : Handler) (req : Request)
        → req.path ≡ codes "/metrics"
        → (serve digits order now x.aggregator unmatched req).body
          ≡ codes "koprobe_cluster_cost_total " ++ (digits (amount nought) ++ codes "\n")
    unfolding write_samples scrape each print_sample cluster_samples
    metrics_text digits order now unmatched req path =
        let (no_pods, no_teams, zero_total) = Reach-latest now r in
        ap (λ a. a.body) (serve-metrics digits order now x.aggregator unmatched req path)
        ∙ (rw (no_pods, no_teams, zero_total, visit-nil order) (append-nil _))

    pages-eq-empty_pages :
        (encode : Page F → Text) (reads : Reads F) (req : Request)
        → pages encode reads x.aggregator req ≡ empty_pages encode reads x.aggregator req
    unfolding handle_summary handle_by_team handle_by_namespace handle_by_pod handle_waste
    pages-eq-empty_pages encode reads req =
        let snap = latest_snapshot reads.now x.aggregator in
        let none = Reach-latest reads.now r in
        rw
          (
            summary-nil snap none,
            by_team-nil reads.team_order reads.team_sorter snap none,
            by_namespace-nil snap none,
            by_pod-nil reads.pod_sorter (req.query (codes "namespace")) (req.query (codes "team"))
                snap none,
            waste-nil reads.cost_order x.aggregator (Reach-pod_costs r),
          )
          refl

    -- Whatever state the daemon reaches from its start, its servers tell nothing: the text of
    -- `/metrics` is one line, the cluster's cost, which is 0; and the pages of the API are a summary of
    -- no pods and no teams with the total 0, no rows by team, by namespace or by pod, and no waste, for
    -- every query, and the history.
    pub Reach-serves :
        (encode : Page F → Text) (reads : Reads F) (digits : Value F → Text)
        (order : Order (Text × TeamCost F)) (now : ℤ) (unmatched : Handler) (req : Request)
        → req.path ≡ codes "/metrics"
        → ((serve digits order now x.aggregator unmatched req).body
            ≡ codes "koprobe_cluster_cost_total " ++ (digits (amount nought) ++ codes "\n"))
          × ((asked : Request)
              → pages encode reads x.aggregator asked ≡ empty_pages encode reads x.aggregator asked)
    Reach-serves encode reads digits order now unmatched req path =
        (metrics_text digits order now unmatched req path, pages-eq-empty_pages encode reads)
