-- ===== src/Aggregator/Runs.antt =====
-- The running daemon of cmd/koprobe/main.go: the aggregator from its start on, with the other
-- goroutines between its ticks.
use koprobe.Prelude.{ℤ, Bool, ◌≡◌, Text, some, List, [], ◌∷◌, ◌++◌, Result}
use koprobe.Float.{Double}
use koprobe.Collector.{Manager}
use koprobe.Collector.Events.{Event, send}
use koprobe.Enricher.{Files, Pod, no_pods, sync_pods}
use koprobe.Pricing.{ResourcePrices, Http, new_pricer, refresh, get}
use koprobe.Aggregator.{Aggregator, Snapshot, Orders, new_aggregator, snapshot_at, collect_at}

-- `Run snaps a`: the daemon may be in the state `a` after the ticks that built the snapshots
-- `snaps`, oldest first. Between ticks the collectors send updates, the pods are listed, with or
-- without success, and prices are refreshed, with any reply.
pub data Run {F : Type 0} ⦃d : Double F⦄ : List (Snapshot F) → Aggregator F → Type 0 where
  started :
      (collectors : Manager) (files : Files) (pods : List Pod) (http : Http) (now later : ℤ)
      (provider region : Text)
      → collectors.metrics ≡ []
      → Run [] (
          new_aggregator collectors
            (sync_pods files (Result.ok pods) no_pods).0
            (new_pricer http now later provider region).0)
  measured :
      {snaps : List (Snapshot F)} {a : Aggregator F} (e : Event)
      → Run snaps a
      → Run snaps (record a { collectors = send e a.collectors })
  synced :
      {snaps : List (Snapshot F)} {a : Aggregator F} (files : Files) (listing : Result (List Pod))
      → Run snaps a
      → Run snaps (record a { enricher = (sync_pods files listing a.enricher).0 })
  refreshed :
      {snaps : List (Snapshot F)} {a : Aggregator F} (http : Http) (now : ℤ)
      → Run snaps a
      → Run snaps (record a { pricer = (refresh http now a.pricer).0 })
  ticked :
      {snaps : List (Snapshot F)} {a : Aggregator F} (orders : Orders F) (asked now : ℤ)
      (prices : ResourcePrices F) (stale : Bool)
      → get asked a.pricer ≡ some (prices, stale)
      → Run snaps a
      → Run (snaps ++ (snapshot_at orders now prices a ∷ [])) (collect_at orders now prices a)
