-- ===== src/Daemon/Steps.antt =====
-- The goroutines of the running daemon, one step after another. A tick of `Run` that finds old prices
-- starts a refresh, which ends at a later step. No step lists the pods again and none sends an update
-- to the manager: `main` does not call `StartSync`, and the collectors' `Start` methods are empty.
use mathlib.Core.Path.{subst}
use koprobe.Prelude.{
  ◌⊎◌, ℕ, ◌+◌, ◌-◌, ◌<◌, ◌≡◌, refl, sym, ap, ◌∙◌, ◌==◌, nat_eq, true, false, Bool, ℤ, Text, some,
  List, [], ◌∷◌, ◌++◌, Result, ok, err, if◌then◌else◌, Bool-cases, inl, inr, select, arith,
}
use koprobe.Float.{Double}
use koprobe.GoMap.Ranging.{Order}
use koprobe.Collector.{Kind, stop}
use koprobe.Enricher.{no_pods, sync_pods, new_enricher, Enricher, Files, Pod}
use koprobe.Pricing.{ResourcePrices, Http, new_pricer, refresh, get}
use koprobe.Aggregator.{
  Snapshot, TeamCost, Orders, new_aggregator, snapshot_at, collect_at, store, latest_snapshot,
}
use koprobe.Aggregator.Runs.{Run, started, refreshed, ticked}
use koprobe.Slack.{Exporter, check_anomalies}
use koprobe.Daemon.{Config, World, running, Daemon, start, shut_down}
use koprobe.Daemon.Start.{attached, connected, launched, start-eq}

-- `refreshes` after `Get` found its prices old or not
abbrev pub asked_for : Bool → ℕ → ℕ
asked_for stale n = if stale then n + 1 else n

new_enricher-ok :
    (config client : Result (Unit {0})) (files : Files) (pods : Result (List Pod)) (e : Enricher)
    → new_enricher config client files pods ≡ ok e
    → (listed : List Pod) × (e ≡ (sync_pods files (ok listed) no_pods).0)
unfolding new_enricher sync_pods
new_enricher-ok (err m) client files pods e h = ground arith
new_enricher-ok (ok _) (err m) files pods e h = ground arith
new_enricher-ok (ok _) (ok _) files (err m) e h = ground arith
new_enricher-ok (ok _) (ok _) files (ok listed) e h = (listed, ground arith)

-- whether the configuration asks for a collector
abbrev pub wanted : Config → Kind → Bool
wanted cfg Kind.cpu = cfg.collect_cpu
wanted cfg Kind.network = cfg.collect_net
wanted cfg Kind.disk = cfg.collect_disk
wanted cfg Kind.memory = cfg.collect_mem

module _ {F : Type 0} ⦃d : Double F⦄ where
  -- `Reach cfg w snaps x`: the daemon started with `cfg` may be in the state `x` after the ticks that
  -- built the snapshots `snaps`, oldest first.
  pub data Reach (cfg : Config) (w : World) : List (Snapshot F) → Daemon F → Type 0 where
    launched_at : {x : Daemon F} → start cfg w ≡ running x → Reach cfg w [] x
    collected :
        {snaps : List (Snapshot F)} {x : Daemon F} (orders : Orders F) (asked now : ℤ)
        (prices : ResourcePrices F) (stale : Bool)
        → get asked x.aggregator.pricer ≡ some (prices, stale)
        → Reach cfg w snaps x
        → Reach cfg w (snaps ++ (snapshot_at orders now prices x.aggregator ∷ [])) (record x {
          aggregator = collect_at orders now prices x.aggregator;
          refreshes = asked_for stale x.refreshes;
        })
    priced :
        {snaps : List (Snapshot F)} {x : Daemon F} (http : Http) (now : ℤ)
        → 0 < x.refreshes
        → Reach cfg w snaps x
        → Reach cfg w snaps (record x {
          aggregator = record x.aggregator { pricer = (refresh http now x.aggregator.pricer).0 };
          refreshes = x.refreshes - 1;
        })
    checked :
        {snaps : List (Snapshot F)} {x : Daemon F} (order : Order (Text × TeamCost F)) (now : ℤ)
        (s : Exporter F)
        → x.slack ≡ some s
        → Reach cfg w snaps x
        → Reach cfg w snaps
            (record x { slack = some (check_anomalies order (latest_snapshot now x.aggregator) s) })

  -- a start that succeeds, taken apart
  pub start-running :
      (cfg : Config) (w : World) (x : Daemon F)
      → start cfg w ≡ running x
      → (e : Enricher) × (connected cfg w ≡ ok e) × (x ≡ launched cfg w e)
  start-running cfg w x h = go (connected cfg w) refl (Bool-cases (w.euid == 0))
    where
      go :
          (r : Result Enricher)
          → connected cfg w ≡ r
          → ((w.euid == 0) ≡ true) ⊎ ((w.euid == 0) ≡ false)
          → (e : Enricher) × (connected cfg w ≡ ok e) × (x ≡ launched cfg w e)
      go r p (inr b) = absurd (ground (arith, start-eq {F = F} cfg w))
      go (err m) p (inl b) = absurd (ground (arith, start-eq {F = F} cfg w))
      go (ok e) p (inl b) = (e, p, ground (arith, start-eq {F = F} cfg w))

  launched-Run :
      (cfg : Config) (w : World) (e : Enricher)
      → connected cfg w ≡ ok e
      → Run {F = F} [] (launched cfg w e).aggregator
  unfolding launched
  launched-Run cfg w e h =
      let (listed, same) = new_enricher-ok _ w.client w.files w.pods e h in
      subst
        (λ made. Run {F = F} [] (
          new_aggregator (attached cfg) made
            (new_pricer w.http w.priced_at w.defaulted_at cfg.cloud_provider cfg.region).0))
        (sym same)
        (started (attached cfg) w.files listed w.http w.priced_at w.defaulted_at cfg.cloud_provider
          cfg.region refl)

  -- Every state of the started daemon is one of the aggregator's runs, with the same snapshots.
  pub Reach-Run :
      {cfg : Config} {w : World} {snaps : List (Snapshot F)} {x : Daemon F}
      → Reach cfg w snaps x
      → Run snaps x.aggregator
  Reach-Run {cfg} {w} (launched_at {x = x} h) =
      let (e, made, same) = start-running cfg w x h in
      subst (λ y. Run {F = F} [] y.aggregator) (sym same) (launched-Run cfg w e made)
  Reach-Run (collected orders asked now prices stale e r) =
      ticked orders asked now prices stale e (Reach-Run r)
  Reach-Run (priced http now busy r) = refreshed http now (Reach-Run r)
  Reach-Run (checked order now s e r) = Reach-Run r

  -- the manager stays as it was made
  pub Reach-collectors :
      {cfg : Config} {w : World} {snaps : List (Snapshot F)} {x : Daemon F}
      → Reach cfg w snaps x
      → x.aggregator.collectors ≡ attached cfg
  unfolding collect_at store
  Reach-collectors {cfg} {w} (launched_at {x = x} h) =
      let (e, made, same) = start-running cfg w x h in
      ap (λ y. y.aggregator.collectors) same ∙ (unfold launched new_aggregator in refl)
  Reach-collectors (collected orders asked now prices stale e r) = Reach-collectors r
  Reach-collectors (priced http now busy r) = Reach-collectors r
  Reach-collectors (checked order now s e r) = Reach-collectors r

  -- Whenever the daemon is told to end, it detaches exactly the collectors that its configuration
  -- asks for, each once.
  pub shut_down-eq-select :
      {cfg : Config} {w : World} {snaps : List (Snapshot F)} {x : Daemon F}
      → Reach cfg w snaps x
      → shut_down x ≡ select (wanted cfg) (Kind.cpu ∷ Kind.network ∷ Kind.disk ∷ Kind.memory ∷ [])
  unfolding shut_down stop
  shut_down-eq-select {cfg} r = ap stop (Reach-collectors r) ∙ ground arith
