-- ===== src/Prometheus/Serving.antt =====
-- internal/exporter/prometheus.go: `NewPrometheus` and `Start`. A request comes with the aggregator as it
-- is then, the clock and the order of the loop over the teams.
use koprobe.Prelude.{◌≡◌, Bool, Text, ℤ, List, [], map, if◌then◌else◌}
use koprobe.Float.{Double}
use koprobe.GoMap.Ranging.{Order}
use koprobe.Aggregator.{TeamCost, Aggregator}
use koprobe.Prometheus.{Value}
use koprobe.Prometheus.Server.{serve}
use koprobe.Tickers.{Signal, Progress, returned}
use koprobe.Tickers.Rounds.{ticks_before, stands}
use koprobe.Web.{Request, Response, Handler}
use koprobe.Web.Serving.{listen_and_serve, listen_and_serve-stands}

pub record PrometheusExporter : Type 0 where
  pub port : ℤ

abbrev pub new_prometheus : ℤ → PrometheusExporter
new_prometheus port = record { port = port }

-- A request, with what answering it reads.
pub record Visit (F : Type 0) : Type 0 where
  pub request : Request
  pub order : Order (Text × TeamCost F)
  pub now : ℤ
  pub aggregator : Aggregator F

module _ {F : Type 0} ⦃d : Double F⦄ (digits : Value F → Text) (unmatched : Handler) where
  abbrev pub answer : Visit F → Response
  answer v = serve digits v.order v.now v.aggregator unmatched v.request

  unfoldable pub start :
      (address : ℤ → Text) (binds : Text → Bool)
      → PrometheusExporter
      → List (Signal (Unit {0}) (Visit F))
      → Progress (List Response)
  start address binds p signals = listen_and_serve answer (binds (address p.port)) signals

  -- If the address can be bound, the server returns once its context has ended, and waits for requests
  -- before that; it answers each request before the end from the aggregator as it is then. Otherwise it
  -- returns at once.
  pub start-stands :
      (address : ℤ → Text) (binds : Text → Bool) (port : ℤ)
      (signals : List (Signal (Unit {0}) (Visit F)))
      → start address binds (new_prometheus port) signals ≡ (
          if binds (address port)
          then stands signals (map answer (ticks_before signals))
          else returned [])
  unfolding start
  start-stands address binds port signals =
      listen_and_serve-stands answer (binds (address port)) signals
