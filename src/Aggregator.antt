-- ===== src/Aggregator.antt =====
-- internal/aggregator/aggregator.go: pod costs from the collectors' counters, the pods' metadata and
-- the prices; snapshots and their history; the waste report.
-- A `PodCost` and a `TeamCost` are reached through pointers that nothing changes after `collect`
-- has built them, so they are values. Each of the two `range` loops over a map takes its order as
-- an argument, as do the instants. The lock makes the last part of `collect` one step; its loops read
-- one copy of the counters and one set of prices, and one state of the enricher, which nothing that
-- `main` starts changes. `Run` calls `collect` at every tick of its timer.
mod Costing
pub mod Teams
pub mod Pods
pub mod History
pub mod Waste
pub mod Nonneg
pub mod Signs
pub mod Runs
pub mod Attribution
pub mod Running
pub mod Tests
unfoldable pub use Costing.*
use koprobe.Prelude.{
  ℕ, suc, ◌+◌, ◌*◌, ◌^◌, ◌≡◌, Bool, true, false, ◌&&◌, ◌==◌, nat_eq, text_eq, Text, codes, ℤ, pos,
  ltb_ℤ, ◌+ℤ◌, ◌-ℤ◌, int64, last?, select, foldl, Option, none, some, List, [], ◌∷◌, ◌++◌,
  if◌then◌else◌,
}
use koprobe.Float.{Double, ◌⊕◌, ◌⊖◌, ◌⊗◌, ◌⊘◌, ◌≺◌, nought}
use koprobe.GoMap.{Map, insert, change, values}
use koprobe.GoMap.Ranging.{Order}
use koprobe.Window.{trim}
use koprobe.Collector.{RawMetrics, Manager, snapshot}
use koprobe.Enricher.{PodInfo, Enricher, resolve}
use koprobe.Pricing.{ResourcePrices, Pricer, get}

pub record TeamCost (F : Type 0) : Type 0 where
  pub team : Text
  pub total_cost : F
  pub pod_count : ℕ
  pub wasted_cost : F
  pub pods : List (PodCost F)

pub record Snapshot (F : Type 0) : Type 0 where
  pub timestamp : ℤ
  pub pod_costs : List (PodCost F)
  pub team_costs : Map Text (TeamCost F)
  pub total : F

pub record Aggregator (F : Type 0) : Type 0 where
  pub collectors : Manager
  pub enricher : Enricher
  pub pricer : Pricer F
  pub pod_costs : Map Text (PodCost F)
  pub history : List (Snapshot F)

-- `pod.Namespace + "/" + pod.PodName`
abbrev pub pod_key : PodInfo → Text
pod_key pod = pod.namespace ++ (codes "/" ++ pod.pod_name)

-- the snapshots of 24 hours
abbrev pub history_limit : ℕ
history_limit = 5760

-- The orders of the loop that copies the metrics and of the two loops of `collect`.
pub record Orders (F : Type 0) : Type 0 where
  pub copying : Order (ℕ × RawMetrics)
  pub raw : Order (ℕ × RawMetrics)
  pub costs : Order (Text × PodCost F)

module _ {F : Type 0} ⦃d : Double F⦄ where
  open d use {lit, of_ℕ, of_ℤ}

  unfoldable pub new_aggregator : Manager → Enricher → Pricer F → Aggregator F
  new_aggregator collectors enricher pricer = record {
    collectors = collectors;
    enricher = enricher;
    pricer = pricer;
    pod_costs = [];
    history = [];
  }

  -- the body of the loop over the raw metrics
  unfoldable pub add_cost :
      ResourcePrices F → ℤ → Enricher → Map Text (PodCost F) → ℕ × RawMetrics → Map Text (PodCost F)
  add_cost prices now enricher costs (id, m) = elim (resolve enricher id) [
    | none ↦ costs
    | some pod ↦ insert (pod_key pod) (cost_of prices now pod m) costs
  ]

  unfoldable pub new_costs :
      ResourcePrices F → ℤ → Enricher → List (ℕ × RawMetrics) → Map Text (PodCost F)
  unfolding add_cost
  new_costs prices now enricher raw = foldl (add_cost prices now enricher) [] raw

  abbrev pub empty_team : Text → TeamCost F
  empty_team team = record {
    team = team;
    total_cost = nought;
    pod_count = 0;
    wasted_cost = nought;
    pods = [];
  }

  unfoldable pub add_pod_cost : PodCost F → TeamCost F → TeamCost F
  add_pod_cost cost t = record t {
    total_cost = t.total_cost ⊕ cost.total_cost;
    wasted_cost = t.wasted_cost ⊕ cost.wasted_dollars;
    pod_count = t.pod_count + 1;
    pods = t.pods ++ (cost ∷ []);
  }

  -- the body of the loop over the new costs
  unfoldable pub add_to_snapshot : Snapshot F → PodCost F → Snapshot F
  add_to_snapshot s cost = record s {
    pod_costs = s.pod_costs ++ (cost ∷ []);
    total = s.total ⊕ cost.total_cost;
    team_costs = change cost.team (empty_team cost.team) (add_pod_cost cost) s.team_costs;
  }

  abbrev pub empty_snapshot : ℤ → Snapshot F
  empty_snapshot now = record { timestamp = now; pod_costs = []; team_costs = []; total = nought }

  unfoldable pub build_snapshot : ℤ → List (PodCost F) → Snapshot F
  build_snapshot now costs = foldl add_to_snapshot (empty_snapshot now) costs

  -- the step under the lock
  unfoldable pub store : Map Text (PodCost F) → Snapshot F → Aggregator F → Aggregator F
  store costs snap a = record a {
    pod_costs = costs;
    history = trim history_limit (a.history ++ (snap ∷ []));
  }

  -- the two loops of `collect`, with the prices that `Get` returns
  unfoldable pub costs_at : Orders F → ℤ → ResourcePrices F → Aggregator F → Map Text (PodCost F)
  costs_at orders now prices a =
      new_costs prices now a.enricher (orders.raw.visit (snapshot orders.copying a.collectors))

  unfoldable pub snapshot_at : Orders F → ℤ → ResourcePrices F → Aggregator F → Snapshot F
  snapshot_at orders now prices a =
      build_snapshot now (values (orders.costs.visit (costs_at orders now prices a)))

  unfoldable pub collect_at : Orders F → ℤ → ResourcePrices F → Aggregator F → Aggregator F
  collect_at orders now prices a =
      store (costs_at orders now prices a) (snapshot_at orders now prices a) a

  -- `none` is the panic of `Get`; `asked` is the instant at which `Get` reads the clock
  unfoldable pub collect : Orders F → ℤ → ℤ → Aggregator F → Option (Aggregator F)
  collect orders asked now a = elim (get asked a.pricer) [
    | none ↦ none
    | some (prices, _) ↦ some (collect_at orders now prices a)
  ]

  -- `LatestSnapshot`
  unfoldable pub latest_snapshot : ℤ → Aggregator F → Snapshot F
  latest_snapshot now a = elim (last? a.history) [ none ↦ empty_snapshot now | some s ↦ s ]

  -- `History`; `-since` is taken in 64 bits, where the least `int64` is its own negation
  unfoldable pub history_since : ℤ → ℤ → Aggregator F → List (Snapshot F)
  history_since now since a =
      select (λ s. ltb_ℤ (now +ℤ int64 (pos 0 -ℤ since)) s.timestamp) a.history

  -- `WasteReport`, over the loop's order
  unfoldable pub waste_report : Order (Text × PodCost F) → Aggregator F → List (PodCost F)
  waste_report order a =
      select (λ c. (nought ≺ c.cpu_utilization_pct) && (c.cpu_utilization_pct ≺ lit 20 0))
        (values (order.visit a.pod_costs))
