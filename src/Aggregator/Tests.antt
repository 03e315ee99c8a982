-- ===== src/Aggregator/Tests.antt =====
-- One tick over two containers of one pod and one of another, and the aggregator's theorems there.
use koprobe.Prelude.{
  true, map, All, ℕ, ◌≡◌, refl, false, nat_eq, text_eq, Text, codes, pos, some, List, [], ◌∷◌,
  length, Result, ◌-ℤ◌,
}
use koprobe.Float.Pico.{Pico, pico_double, Pico-IsOrdered, Pico-IsRounded}
use koprobe.GoMap.{lookup}
use koprobe.GoMap.Ranging.{forwards, backwards, last_for}
use koprobe.GoMap.Values.{AllValues}
use koprobe.Window.{suffix}
use koprobe.Collector.{RawMetrics, fresh_metrics, new_manager}
use koprobe.Collector.Events.{Event, send}
use koprobe.Enricher.{Pod, PodInfo, Enricher, Files, no_pods, resolve, sync_pods}
use koprobe.Pricing.{ResourcePrices, Pricer, Http, Reply, default_prices, new_pricer, get}
use koprobe.Aggregator.{
  PodCost, Snapshot, Aggregator, Orders, cost_of, convert, apply_prices, add_waste, new_costs,
  build_snapshot, new_aggregator, snapshot_at, collect_at, collect, latest_snapshot, waste_report,
}
use koprobe.Aggregator.Runs.{Run, started, measured, ticked}
use koprobe.Aggregator.Teams.{Summarises, build_snapshot-Summarises}
use koprobe.Aggregator.Pods.{priced, lookup-new_costs}
use koprobe.Aggregator.History.{history-eq-suffix, length-history}
use koprobe.Aggregator.Signs.{IsNonnegSnapshot, Run-IsNonnegSnapshot}
use koprobe.Aggregator.Waste.{IsIdle, waste_report-eq-nil}

abbrev info : Text → Text → ℕ → PodInfo
info name team id = record {
  pod_name = name;
  namespace = codes "shop";
  node_name = codes "n1";
  team_label = team;
  service_label = name;
  feature_label = [];
  cost_center = [];
  environment = codes "production";
  cgroup_id = id;
  container_id = codes "ab";
}

abbrev web : PodInfo
web = info (codes "web") (codes "front") 1

abbrev enricher : Enricher
enricher = record {
  cgroup_to_pod = (1, web) ∷ (2, web) ∷ (3, info (codes "db") (codes "data") 3) ∷ [];
  container_to_pod = [];
}

abbrev cycles : ℕ → ℕ → RawMetrics
cycles id n = record (fresh_metrics id) { cpu_cycles = n }

-- the web pod has the cgroups 1 and 2
abbrev raw : List (ℕ × RawMetrics)
raw = (1, cycles 1 5_000_000_000) ∷ (3, cycles 3 10) ∷ (2, cycles 2 7_000_000_000) ∷ []

abbrev prices : ResourcePrices Pico
prices = default_prices (codes "aws") (codes "r") (pos 0)

abbrev web_key : Text
web_key = codes "shop/web"

lookup-new_costs_example :
    lookup web_key (new_costs prices (pos 99) enricher raw)
    ≡ last_for web_key (priced prices (pos 99) enricher raw)
lookup-new_costs_example = lookup-new_costs prices (pos 99) enricher raw web_key

abbrev charged : PodCost Pico
charged = cost_of prices (pos 99) web (cycles 2 7_000_000_000)

-- 7 billion cycles at 0.000048 for 1/240 of an hour
charged_cpu : charged.cpu_cost ≡ pos 1_399_999
unfolding cost_of add_waste apply_prices convert default_prices
charged_cpu = refl

build_snapshot-Summarises_example :
    Summarises (charged ∷ charged ∷ []) (build_snapshot (pos 99) (charged ∷ charged ∷ []))
build_snapshot-Summarises_example = build_snapshot-Summarises (pos 99) (charged ∷ charged ∷ [])

-- every container is found, with the cgroup 3
abbrev pub files : Files
files id = record { path = id; failed = false; is_dir = true; id_file = some 3 } ∷ []

abbrev pub listed : List Pod
listed =
    record {
      name = codes "db";
      namespace = codes "shop";
      node_name = codes "n1";
      labels = (codes "app.kubernetes.io/team", codes "data") ∷ [];
      container_statuses = codes "docker://0123456789abcdef" ∷ [];
    }
    ∷ []

abbrev pub http : Http
http url = Reply.decoded

abbrev pub orders : Orders Pico
orders = record { copying = forwards; raw = backwards; costs = forwards }

abbrev pub start : Aggregator Pico
start =
    new_aggregator new_manager (sync_pods files (Result.ok listed) no_pods).0
      (new_pricer http (pos 1) (pos 2) (codes "gcp") (codes "r")).0

abbrev pub busy : Aggregator Pico
busy = record start { collectors = send (Event.cpu 3 10 10) start.collectors }

Run-busy : Run [] busy
Run-busy = measured (Event.cpu 3 10 10) (
    started new_manager files listed http (pos 1) (pos 2) (codes "gcp") (codes "r")
      (unfold new_manager in refl))

abbrev pub tick : ResourcePrices Pico
tick = default_prices (codes "gcp") (codes "r") (pos 1)

get-busy : get (pos 5) busy.pricer ≡ some (tick, false)
unfolding get new_pricer koprobe.Pricing.refresh koprobe.Pricing.fetch
    koprobe.Pricing.fetch_gcp_prices default_prices new_aggregator ◌-ℤ◌
get-busy = refl

abbrev pub after : Aggregator Pico
after = collect_at orders (pos 6) tick busy

abbrev pub taken : Snapshot Pico
taken = snapshot_at orders (pos 6) tick busy

pub Run-after : Run (taken ∷ []) after
Run-after = ticked orders (pos 5) (pos 6) tick false get-busy Run-busy

history-eq-suffix_example : after.history ≡ suffix 5760 (taken ∷ [])
history-eq-suffix_example = history-eq-suffix Run-after

one_snapshot : length after.history ≡ 1
one_snapshot = length-history Run-after

waste_report-eq-nil_example : (waste_report backwards after ≡ []) × AllValues IsIdle after.pod_costs
waste_report-eq-nil_example = waste_report-eq-nil Pico-IsOrdered backwards Run-after

-- the pod is found and charged
charged_team : map (λ c. c.team) taken.pod_costs ≡ codes "data" ∷ []
unfolding send snapshot_at koprobe.Aggregator.costs_at new_costs koprobe.Aggregator.add_cost
    build_snapshot koprobe.Aggregator.add_to_snapshot new_aggregator koprobe.Collector.snapshot
    resolve sync_pods lookup cost_of add_waste apply_prices convert koprobe.GoMap.Ranging.insert_all
    koprobe.GoMap.insert koprobe.Collector.update_cpu koprobe.Collector.update koprobe.GoMap.change
    koprobe.GoMap.ensure koprobe.Enricher.add_pod_containers koprobe.Enricher.add_container
    koprobe.Enricher.add_resolved koprobe.Enricher.sanitize_container_id
    koprobe.Enricher.resolve_cgroup_id koprobe.Enricher.walk koprobe.Enricher.contains
    koprobe.Enricher.has_prefix koprobe.Enricher.trim_prefix koprobe.Enricher.shorten
    koprobe.Enricher.pod_info koprobe.Enricher.label_or_default new_manager
charged_team = refl

Run-IsNonnegSnapshot_example : All IsNonnegSnapshot (taken ∷ [])
Run-IsNonnegSnapshot_example = Run-IsNonnegSnapshot Pico-IsRounded Run-after
