-- ===== src/Daemon/Tests.antt =====
-- A start as root on a cluster of no pods, with a web hook and without the disk collector; one tick.
use koprobe.Prelude.{
  Text, ◌++◌, ◌≡◌, refl, false, text_eq, nat_eq, ◌==◌, if◌then◌else◌, All, pos, ◌-ℤ◌, codes, some,
  [], ◌∷◌, ok, err, select,
}
use koprobe.Float.Pico.{Pico, pico_double}
use koprobe.GoMap.Ranging.{forwards, backwards}
use koprobe.Collector.{Kind}
use koprobe.Enricher.{no_pods, sync_pods}
use koprobe.Pricing.{Reply, ResourcePrices, default_prices, get}
use koprobe.Aggregator.{Snapshot, Orders, collect_at, snapshot_at, latest_snapshot}
use koprobe.Daemon.{
  Config, Setting, World, Exit, Daemon, exited, running, parse_flags, start, shut_down,
}
use koprobe.Daemon.Start.{connected, launched, start-eq}
use koprobe.Daemon.Steps.{Reach, launched_at, collected, wanted, shut_down-eq-select}
use koprobe.Daemon.Served.{empty_pages, Reach-serves}
use koprobe.Api.Server.{Page, Reads, pages}
use koprobe.Prometheus.{Value, amount}
use koprobe.Prometheus.Server.{serve}
use koprobe.Sorting.{insertion}
use koprobe.Web.{Request, Handler}
use koprobe.Daemon.Quiet.{IsEmpty, fresh_slack, Reach-IsEmpty}

abbrev cfg : Config
cfg = parse_flags (Setting.slack_webhook (codes "https://hooks") ∷ Setting.collect_disk false ∷ [])

abbrev world : World
world = record {
  euid = 0;
  in_cluster = ok tt;
  from_file = λ path. err (codes "no such file");
  client = ok tt;
  files = λ id. [];
  pods = ok [];
  http = λ url. Reply.decoded;
  priced_at = pos 1;
  defaulted_at = pos 2;
}

start-eq_example : start {F = Pico} cfg world ≡ (
    if world.euid == 0
    then elim (connected cfg world) [
      | err message ↦ exited (Exit.no_cluster message)
      | ok enricher ↦ running (launched cfg world enricher)
    ]
    else exited Exit.needs_root)
start-eq_example = start-eq cfg world

abbrev begun : Daemon Pico
begun = launched cfg world (sync_pods world.files (ok []) no_pods).0

starts : start cfg world ≡ running begun
unfolding parse_flags koprobe.Enricher.new_enricher koprobe.Enricher.read_config sync_pods
starts = start-eq cfg world

unprivileged : start {F = Pico} cfg (record world { euid = 1000 }) ≡ exited Exit.needs_root
unprivileged = start-eq cfg (record world { euid = 1000 })

abbrev prices : ResourcePrices Pico
prices =
    koprobe.Pricing.set_aws_regional_prices
      (default_prices (codes "aws") (codes "us-east-1") (pos 1)) (codes "us-east-1")

abbrev orders : Orders Pico
orders = record { copying = forwards; raw = backwards; costs = forwards }

get-begun : get (pos 5) begun.aggregator.pricer ≡ some (prices, false)
unfolding parse_flags launched get koprobe.Pricing.new_pricer koprobe.Pricing.refresh
    koprobe.Pricing.fetch koprobe.Pricing.fetch_aws_prices koprobe.Pricing.aws_reply
    koprobe.Pricing.set_aws_regional_prices default_prices koprobe.Aggregator.new_aggregator ◌-ℤ◌
get-begun = refl

abbrev ticked : Daemon Pico
ticked = record begun { aggregator = collect_at orders (pos 6) prices begun.aggregator }

abbrev taken : Snapshot Pico
taken = snapshot_at orders (pos 6) prices begun.aggregator

Reach-ticked : Reach cfg world (taken ∷ []) ticked
unfolding launched
Reach-ticked = collected orders (pos 5) (pos 6) prices false get-begun (launched_at starts)

shut_down-eq-select_example :
    shut_down ticked ≡ select (wanted cfg) (Kind.cpu ∷ Kind.network ∷ Kind.disk ∷ Kind.memory ∷ [])
shut_down-eq-select_example = shut_down-eq-select Reach-ticked

detached : shut_down ticked ≡ Kind.cpu ∷ Kind.network ∷ Kind.memory ∷ []
unfolding parse_flags
detached = shut_down-eq-select Reach-ticked

Reach-IsEmpty_example :
    All IsEmpty (taken ∷ [])
    × IsEmpty (latest_snapshot (pos 7) ticked.aggregator)
    × (ticked.slack ≡ fresh_slack cfg)
Reach-IsEmpty_example = Reach-IsEmpty (pos 7) Reach-ticked

abbrev encode : Page Pico → Text
encode page = codes "{}"

abbrev digits : Value Pico → Text
digits v = codes "0.000000"

abbrev nowhere : Handler
nowhere req w = record w { status = 404 }

abbrev request : Request
request = record { method = codes "GET"; path = codes "/metrics"; query = λ name. [] }

abbrev reads : Reads Pico
reads = record {
  team_order = backwards;
  cost_order = forwards;
  team_sorter = insertion;
  pod_sorter = insertion;
  scan = λ t. pos 0;
  now = pos 9;
}

Reach-serves_example :
    ((serve digits forwards (pos 9) ticked.aggregator nowhere request).body
      ≡ codes "koprobe_cluster_cost_total " ++ (digits (amount (pos 0)) ++ codes "\n"))
    × ((asked : Request)
        → pages encode reads ticked.aggregator asked
          ≡ empty_pages encode reads ticked.aggregator asked)
Reach-serves_example =
    Reach-serves Reach-ticked encode reads digits forwards (pos 9) nowhere request refl
