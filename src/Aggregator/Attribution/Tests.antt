-- ===== src/Aggregator/Attribution/Tests.antt =====
-- A run with one update, for the one listed pod.
use koprobe.Prelude.{
  ℕ, ◌++◌, length, ◌≡◌, refl, true, some, nat_eq, nat_beq_iff, text_eq, codes, pos, List, [], ◌∷◌,
  arith,
}
use koprobe.Float.Pico.{Pico, pico_double}
use koprobe.GoMap.{lookup}
use koprobe.Collector.{fresh_metrics, new_manager}
use koprobe.Collector.Events.{Event}
use koprobe.Collector.Tally.{touched, grow}
use koprobe.Enricher.{PodInfo, no_pods, resolve, sync_pods}
use koprobe.Pricing.{ResourcePrices, default_prices}
use koprobe.Aggregator.{Aggregator, Snapshot, pod_key, cost_of, new_aggregator, collect_at}
use koprobe.Aggregator.Attribution.{sent, lookup-collect_at}
use koprobe.Tickers.{Signal, done, tick, meanwhile}
use koprobe.Tickers.Rounds.{ticks_before, stands}
use koprobe.Aggregator.Running.{Other, update, Tick, run, run-returns}
use koprobe.Aggregator.Tests.{busy, orders, files, listed, http}
use koprobe.Aggregator.Runs.{Run, started, measured}

abbrev bought : ResourcePrices Pico
bought = default_prices (codes "gcp") (codes "r") (pos 1)

abbrev db : PodInfo
db = record {
  pod_name = codes "db";
  namespace = codes "shop";
  node_name = codes "n1";
  team_label = codes "data";
  service_label = codes "db";
  feature_label = [];
  cost_center = [];
  environment = codes "production";
  cgroup_id = 3;
  container_id = codes "0123456789ab";
}

found : resolve busy.enricher 3 ≡ some db
unfolding resolve lookup sync_pods new_aggregator koprobe.Enricher.sanitize_container_id
    koprobe.Enricher.shorten koprobe.Enricher.trim_prefix koprobe.Enricher.resolve_cgroup_id
    koprobe.Enricher.walk koprobe.Enricher.contains koprobe.GoMap.insert koprobe.Enricher.pod_info
found = refl

nothing_yet : new_manager.metrics ≡ []
unfolding new_manager
nothing_yet = refl

-- one update, of 10 cycles for the cgroup 3
abbrev once : Run [] busy
once =
    measured (Event.cpu 3 10 10)
      (started new_manager files listed http (pos 1) (pos 2) (codes "gcp") (codes "r") nothing_yet)

db_is_measured : touched 3 (sent once) ≡ true
unfolding sent touched
db_is_measured = refl

alone :
    (other : ℕ) (q : PodInfo)
    → touched other (sent once) ≡ true
    → resolve busy.enricher other ≡ some q
    → pod_key q ≡ pod_key db
    → other ≡ 3
unfolding sent touched
alone other q h known key = ground (arith, h, nat_beq_iff 3 other)

lookup-collect_at_example :
    lookup (codes "shop/db") (collect_at orders (pos 6) bought busy).pod_costs
    ≡ some (cost_of bought (pos 6) db (grow 3 (sent once) (fresh_metrics 3)))
lookup-collect_at_example =
    lookup-collect_at once orders (pos 6) bought 3 db db_is_measured found alone

-- a tick, an update in between, another tick, and the end
abbrev signals : List (Signal Other (Tick Pico))
signals =
    tick (record { orders = orders; asked = pos 5; now = pos 6 })
    ∷ meanwhile (update (Event.cpu 3 1 1))
    ∷ tick (record { orders = orders; asked = pos 7; now = pos 8 })
    ∷ done
    ∷ []

run-returns_example :
    (b : Aggregator Pico) × (more : List (Snapshot Pico)) × (run signals busy ≡ stands signals b)
    × Run ([] ++ more) b
    × (length more ≡ length (ticks_before signals))
run-returns_example = run-returns signals once

two_ticks : length (ticks_before signals) ≡ 2
unfolding ticks_before
two_ticks = refl
