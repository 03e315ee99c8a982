-- ===== src/Daemon.antt =====
-- cmd/koprobe/main.go (cmd/main.go is the same file): the start of the daemon, its goroutines and its
-- end. The outcomes of the system's calls are one record, `World`. What the flag package reads from
-- the command line is a list of settings. Log lines are not modelled.
pub mod Start
pub mod Steps
pub mod Quiet
pub mod Served
pub mod Tests
use koprobe.Prelude.{
  ℕ, ◌≡◌, Bool, true, false, not, ◌==◌, nat_eq, text_eq, Text, codes, ℤ, foldl, Option, none, some,
  List, [], ◌∷◌, ◌++◌, Result, ok, err, if◌then◌else◌,
}
use koprobe.Float.{Double}
use koprobe.Collector.{
  Manager, Error, Kind, new_manager, stop, start_cpu, start_network, start_disk, start_memory,
}
use koprobe.Enricher.{Enricher, Pod, Files, read_config, new_enricher}
use koprobe.Pricing.{Http, Pricer, new_pricer}
use koprobe.Aggregator.{Aggregator, new_aggregator}
use koprobe.Slack.{Exporter, new_slack}

pub record Config : Type 0 where
  pub cloud_provider : Text
  pub region : Text
  pub kube_config : Text
  pub metrics_port : ℤ
  pub api_port : ℤ
  pub log_level : Text
  pub dry_run : Bool
  pub slack_webhook : Text
  pub collect_cpu : Bool
  pub collect_net : Bool
  pub collect_disk : Bool
  pub collect_mem : Bool

-- One flag of the command line, with its value.
pub data Setting : Type 0 where
  cloud region kubeconfig log_level slack_webhook : Text → Setting
  metrics_port api_port : ℤ → Setting
  dry_run collect_cpu collect_network collect_disk collect_memory : Bool → Setting

abbrev pub default_config : Config
default_config = record {
  cloud_provider = codes "aws";
  region = codes "us-east-1";
  kube_config = [];
  metrics_port = ℤ.pos 9090;
  api_port = ℤ.pos 8080;
  log_level = codes "info";
  dry_run = false;
  slack_webhook = [];
  collect_cpu = true;
  collect_net = true;
  collect_disk = true;
  collect_mem = true;
}

abbrev pub set : Config → Setting → Config
set cfg (cloud v) = record cfg { cloud_provider = v }
set cfg (Setting.region v) = record cfg { region = v }
set cfg (kubeconfig v) = record cfg { kube_config = v }
set cfg (Setting.log_level v) = record cfg { log_level = v }
set cfg (Setting.slack_webhook v) = record cfg { slack_webhook = v }
set cfg (Setting.metrics_port v) = record cfg { metrics_port = v }
set cfg (Setting.api_port v) = record cfg { api_port = v }
set cfg (Setting.dry_run v) = record cfg { dry_run = v }
set cfg (Setting.collect_cpu v) = record cfg { collect_cpu = v }
set cfg (collect_network v) = record cfg { collect_net = v }
set cfg (Setting.collect_disk v) = record cfg { collect_disk = v }
set cfg (collect_memory v) = record cfg { collect_mem = v }

unfoldable pub parse_flags : List Setting → Config
parse_flags settings = foldl set default_config settings

-- What the calls out of the program give during the start.
pub record World : Type 0 where
  pub euid : ℕ
  pub in_cluster : Result (Unit {0})
  pub from_file : Text → Result (Unit {0})
  pub client : Result (Unit {0})
  pub files : Files
  pub pods : Result (List Pod)
  pub http : Http
  pub priced_at : ℤ
  pub defaulted_at : ℤ

-- `log.Fatal` and `log.Fatalf`: the process exits with status 1.
pub data Exit : Type 0 where
  needs_root : Exit
  no_cluster no_prices : Text → Exit
  no_collector : Kind → Text → Exit

-- The goroutines that `main` starts; the exporters' with their ports.
pub data Task : Type 0 where
  aggregating weekly_digest anomaly_alerts : Task
  serving_metrics serving_api : ℤ → Task

-- The process from `<-ctx.Done()` on, with what each part holds: `slack` is set where the exporter
-- is made, and `refreshes` counts the refreshes of prices under way.
pub record Daemon (F : Type 0) : Type 0 where
  pub aggregator : Aggregator F
  pub slack : Option (Exporter F)
  pub tasks : List Task
  pub refreshes : ℕ

-- What a part of `main` comes to: it exits, or goes on with a value.
pub data Outcome (A : Type 0) : Type 0 where
  exited : Exit → Outcome A
  running : A → Outcome A

infixl 5 ◌>>=◌
abbrev pub ◌>>=◌ : {A B : Type 0} → Outcome A → (A → Outcome B) → Outcome B
exited e >>= f = exited e
running a >>= f = f a

-- `if err != nil { log.Fatalf(...) }`
abbrev pub or_exit : {A : Type 0} → (Text → Exit) → Result A → Outcome A
or_exit exit (ok a) = running a
or_exit exit (err message) = exited (exit message)

abbrev pub no_error : {A : Type 0} → (Text → Exit) → A × Option Text → Outcome A
no_error exit (a, none) = running a
no_error exit (a, some message) = exited (exit message)

unfoldable pub require_root : ℕ → Outcome (Unit {0})
require_root euid = if not (euid == 0) then exited needs_root else running tt

unfoldable pub start_if : Bool → Kind → (Manager → Manager × Error) → Manager → Outcome Manager
start_if enabled kind start m =
    if enabled then no_error (no_collector kind) (start m) else running m

unfoldable pub start_collectors : Config → Outcome Manager
unfolding start_if
start_collectors cfg = do
  m₁ ← start_if cfg.collect_cpu Kind.cpu start_cpu new_manager
  m₂ ← start_if cfg.collect_net Kind.network start_network m₁
  m₃ ← start_if cfg.collect_disk Kind.disk start_disk m₂
  start_if cfg.collect_mem Kind.memory start_memory m₃

unfoldable pub tasks_of : Config → List Task
tasks_of cfg =
    aggregating
    ∷ serving_metrics cfg.metrics_port
    ∷ serving_api cfg.api_port
    ∷ (if not (cfg.slack_webhook == []) then weekly_digest ∷ anomaly_alerts ∷ [] else [])

unfoldable pub connect : Config → World → Outcome Enricher
connect cfg w =
    or_exit no_cluster
      (new_enricher (read_config w.in_cluster w.from_file cfg.kube_config) w.client w.files w.pods)

module _ {F : Type 0} ⦃d : Double F⦄ where
  unfoldable pub load_prices : Config → World → Outcome (Pricer F)
  load_prices cfg w =
      no_error no_prices
        (new_pricer w.http w.priced_at w.defaulted_at cfg.cloud_provider cfg.region)

  -- `main` up to `<-ctx.Done()`
  unfoldable pub start : Config → World → Outcome (Daemon F)
  unfolding require_root connect load_prices start_collectors tasks_of
  start cfg w = do
    _ ← require_root w.euid
    enricher ← connect cfg w
    pricer ← load_prices cfg w
    collectors ← start_collectors cfg
    running (record {
      aggregator = new_aggregator collectors enricher pricer;
      slack = if not (cfg.slack_webhook == []) then some new_slack else none;
      tasks = tasks_of cfg;
      refreshes = 0;
    })

  -- `collectors.Stop()`, after the context is done: the collectors detached, in turn
  unfoldable pub shut_down : Daemon F → List Kind
  shut_down daemon = stop daemon.aggregator.collectors
