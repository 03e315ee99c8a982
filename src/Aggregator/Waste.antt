-- ===== src/Aggregator/Waste.antt =====
-- The waste report over every run of the daemon. The requested CPU of a container, which the report
-- needs, is a field of `RawMetrics` that no method of the manager sets.
use koprobe.Prelude.{
  nat_eq, text_eq, ℕ, ◌≡◌, refl, ◌&&◌, ℤ, pos, Text, List, [], ◌∷◌, All, foldl, select,
  Option-cases, inl, inr,
}
use koprobe.Float.{Double, ◌≺◌, nought}
use koprobe.Float.Laws.{IsOrdered}
use koprobe.GoMap.{Map, values}
use koprobe.GoMap.Ranging.{Order}
use koprobe.GoMap.Values.{
  AllValues, All-perm, All-values, insert-AllValues, change-AllValues, insert_all-AllValues,
}
use koprobe.Collector.{
  RawMetrics, Manager, fresh_metrics, new_manager, update, add_cpu, add_network, add_disk, snapshot,
}
use koprobe.Collector.Events.{Event, send}
use koprobe.Enricher.{PodInfo, Enricher, resolve}
use koprobe.Pricing.{ResourcePrices}
use koprobe.Aggregator.{
  PodCost, Aggregator, Snapshot, Orders, convert, apply_prices, add_waste, cost_of, add_cost,
  new_costs, costs_at, new_aggregator, store, collect_at, waste_report, pod_key,
}
use koprobe.Aggregator.Runs.{Run, started, measured, synced, refreshed, ticked}

abbrev Unrequested : RawMetrics → Type 0
Unrequested r = r.cpu_requested_millis ≡ pos 0

send-Unrequested :
    (e : Event) (m : Manager)
    → AllValues Unrequested m.metrics
    → AllValues Unrequested (send e m).metrics
unfolding send update add_cpu add_network add_disk
send-Unrequested (Event.cpu id c i) m h =
    change-AllValues Unrequested id (fresh_metrics id) (add_cpu c i) m.metrics refl (λ r q. q) h
send-Unrequested (Event.network id i e a o) m h =
    change-AllValues Unrequested id (fresh_metrics id) (add_network i e a o) m.metrics refl
      (λ r q. q) h
send-Unrequested (Event.disk id rb wb ri wi) m h =
    change-AllValues Unrequested id (fresh_metrics id) (add_disk rb wb ri wi) m.metrics refl
      (λ r q. q) h

snapshot-Unrequested :
    (order : Order (ℕ × RawMetrics)) (m : Manager)
    → AllValues Unrequested m.metrics
    → AllValues Unrequested (snapshot order m)
unfolding snapshot
snapshot-Unrequested order m h =
    insert_all-AllValues Unrequested [] (order.visit m.metrics) tt
      (All-perm (λ e. Unrequested e.1) (order.visit-perm m.metrics) h)

module _ {F : Type 0} ⦃d : Double F⦄ where
  -- no utilization, and no waste
  abbrev pub IsIdle : PodCost F → Type 0
  IsIdle c = (c.cpu_utilization_pct ≡ nought) × (c.wasted_dollars ≡ nought)

  cost_of-IsIdle :
      (prices : ResourcePrices F) (now : ℤ) (pod : PodInfo) (m : RawMetrics)
      → Unrequested m
      → IsIdle (cost_of prices now pod m)
  unfolding cost_of add_waste apply_prices convert
  cost_of-IsIdle prices now pod m h = rw h (refl, refl)

  new_costs-IsIdle :
      (prices : ResourcePrices F) (now : ℤ) (enricher : Enricher) (raw : List (ℕ × RawMetrics))
      (costs : Map Text (PodCost F))
      → AllValues Unrequested raw
      → AllValues IsIdle costs
      → AllValues IsIdle (foldl (add_cost prices now enricher) costs raw)
  new_costs-IsIdle prices now enricher [] costs h k = k
  new_costs-IsIdle prices now enricher ((id, m) ∷ raw) costs h k =
      new_costs-IsIdle prices now enricher raw (add_cost prices now enricher costs (id, m)) h.1 step
    where
      step : AllValues IsIdle (add_cost prices now enricher costs (id, m))
      step = elim (Option-cases (resolve enricher id)) [
        | inl q ↦ unfold add_cost in rw (add_cost, q) k
        | inr (pod, q) ↦
            unfold add_cost in
            rw (add_cost, q)
              (insert-AllValues IsIdle (pod_key pod) (cost_of prices now pod m) costs
                (cost_of-IsIdle prices now pod m h.0) k)
      ]

  record Idle (a : Aggregator F) : Type 0 where
    unrequested : AllValues Unrequested a.collectors.metrics
    idle : AllValues IsIdle a.pod_costs

  costs_at-IsIdle :
      (orders : Orders F) (now : ℤ) (prices : ResourcePrices F) (a : Aggregator F)
      → Idle a
      → AllValues IsIdle (costs_at orders now prices a)
  unfolding costs_at new_costs
  costs_at-IsIdle orders now prices a h =
      new_costs-IsIdle prices now a.enricher
        (orders.raw.visit (snapshot orders.copying a.collectors)) []
        (All-perm (λ e. Unrequested e.1) (orders.raw.visit-perm _)
          (snapshot-Unrequested orders.copying a.collectors h.unrequested))
        tt

  Run-Idle : {snaps : List (Snapshot F)} {a : Aggregator F} → Run snaps a → Idle a
  unfolding new_aggregator collect_at store new_manager
  Run-Idle (started collectors files pods http now later provider region e) = record {
    unrequested = rw e tt;
    idle = tt;
  }
  Run-Idle (measured {a = a} e r) =
      let h = Run-Idle r in
      record { unrequested = send-Unrequested e a.collectors h.unrequested; idle = h.idle }
  Run-Idle (synced files listing r) =
      let h = Run-Idle r in record { unrequested = h.unrequested; idle = h.idle }
  Run-Idle (refreshed http now r) =
      let h = Run-Idle r in record { unrequested = h.unrequested; idle = h.idle }
  Run-Idle (ticked {a = a} orders asked now prices stale e r) =
      let h = Run-Idle r in
      record { unrequested = h.unrequested; idle = costs_at-IsIdle orders now prices a h }

  module _ (laws : IsOrdered F) where
    select_idle :
        (costs : List (PodCost F)) (upper : F)
        → All IsIdle costs
        → select (λ c. (nought ≺ c.cpu_utilization_pct) && (c.cpu_utilization_pct ≺ upper)) costs
          ≡ []
    select_idle [] upper h = refl
    select_idle (c ∷ costs) upper h =
        rw (h.0.0, laws.lt_irrefl nought) (select_idle costs upper h.1)

    -- In every run of the daemon, where numbers are ordered and whatever the collectors send, the
    -- waste report is empty, and every pod on record has utilization 0 and waste 0.
    pub waste_report-eq-nil :
        {snaps : List (Snapshot F)} {a : Aggregator F} (order : Order (Text × PodCost F))
        → Run snaps a
        → (waste_report order a ≡ []) × AllValues IsIdle a.pod_costs
    unfolding waste_report
    waste_report-eq-nil {a = a} order r =
        let h = (Run-Idle r).idle in
        (
          select_idle (values (order.visit a.pod_costs)) _
              (All-values IsIdle _ (All-perm (λ e. IsIdle e.1) (order.visit-perm a.pod_costs) h)),
          h,
        )
