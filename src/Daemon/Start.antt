-- ===== src/Daemon/Start.antt =====
-- `main` up to the point where it waits: what it comes to, in every environment.
use koprobe.Prelude.{
  ◌≡◌, refl, ap, not, ◌==◌, nat_eq, text_eq, none, some, [], Result, ok, err, arith, if◌then◌else◌,
  Bool-cases, inl, inr,
}
use koprobe.Float.{Double}
use koprobe.Collector.{Manager, new_manager, start_cpu, start_network, start_disk, start_memory}
use koprobe.Enricher.{Enricher, read_config, new_enricher}
use koprobe.Pricing.{new_pricer}
use koprobe.Pricing.Ready.{new_pricer-IsReady}
use koprobe.Aggregator.{new_aggregator}
use koprobe.Slack.{new_slack}
use koprobe.Daemon.{
  Config, World, needs_root, no_cluster, no_prices, Daemon, Outcome, exited, running, ◌>>=◌,
  or_exit, no_error, require_root, start_if, start_collectors, tasks_of, connect, load_prices,
  start,
}

-- the manager with the collectors that the configuration asks for
abbrev pub attached : Config → Manager
attached cfg = record {
  metrics = [];
  cpu_collector = cfg.collect_cpu;
  network_collector = cfg.collect_net;
  disk_collector = cfg.collect_disk;
  memory_collector = cfg.collect_mem;
}

start_collectors-eq : (cfg : Config) → start_collectors cfg ≡ running (attached cfg)
unfolding start_collectors start_if start_cpu start_network start_disk start_memory new_manager
start_collectors-eq cfg = ground arith

-- the outcome of `enricher.New`
abbrev pub connected : Config → World → Result Enricher
connected cfg w =
    new_enricher (read_config w.in_cluster w.from_file cfg.kube_config) w.client w.files w.pods

module _ {F : Type 0} ⦃d : Double F⦄ where
  -- the daemon that waits, with a connected enricher
  unfoldable pub launched : Config → World → Enricher → Daemon F
  launched cfg w enricher = record {
    aggregator =
        new_aggregator (attached cfg) enricher
          (new_pricer w.http w.priced_at w.defaulted_at cfg.cloud_provider cfg.region).0;
    slack = if not (cfg.slack_webhook == []) then some new_slack else none;
    tasks = tasks_of cfg;
    refreshes = 0;
  }

  load_prices-eq :
      (cfg : Config) (w : World)
      → load_prices {F = F} cfg w
        ≡ running (new_pricer w.http w.priced_at w.defaulted_at cfg.cloud_provider cfg.region).0
  unfolding load_prices
  load_prices-eq cfg w =
      let (_, never, _, _) =
        new_pricer-IsReady {F = F} w.http w.priced_at w.defaulted_at cfg.cloud_provider
          cfg.region in
      ap
        (λ failure. no_error no_prices (
          (new_pricer {F = F} w.http w.priced_at w.defaulted_at cfg.cloud_provider cfg.region).0,
          failure,
        ))
        never

  abbrev after_root : Config → World → Result Enricher → Outcome (Daemon F)
  after_root cfg w (err message) = exited (no_cluster message)
  after_root cfg w (ok enricher) = running (launched cfg w enricher)

  after_root-eq :
      (cfg : Config) (w : World) (r : Result Enricher)
      → (do
        enricher ← or_exit no_cluster r
        pricer ← load_prices cfg w
        collectors ← start_collectors cfg
        running (record {
          aggregator = new_aggregator collectors enricher pricer;
          slack = if not (cfg.slack_webhook == []) then some new_slack else none;
          tasks = tasks_of cfg;
          refreshes = 0;
        }))
        ≡ after_root cfg w r
  unfolding launched
  after_root-eq cfg w (err message) = refl
  after_root-eq cfg w (ok enricher) = rw (load_prices-eq cfg w, start_collectors-eq cfg)

  -- The start ends in one of three ways: without root it exits for that reason; with root it exits
  -- if the enricher cannot be made, with its error; and otherwise the daemon runs, with the
  -- collectors that the configuration asks for and no metrics. No price and no collector ever stops it.
  pub start-eq :
      (cfg : Config) (w : World)
      → start {F = F} cfg w ≡ (
          if w.euid == 0
          then elim (connected cfg w) [
            | err message ↦ exited (no_cluster message)
            | ok enricher ↦ running (launched cfg w enricher)
          ]
          else exited needs_root)
  unfolding start require_root connect
  start-eq cfg w = elim (Bool-cases (w.euid == 0)) [
    | inl e ↦ rw e (after_root-eq cfg w (connected cfg w))
    | inr e ↦ rw e
  ]
