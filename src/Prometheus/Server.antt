-- ===== src/Prometheus/Server.antt =====
-- internal/exporter/prometheus.go: the routes of the server, and the answer of `handleMetrics` as text.
use koprobe.Prelude.{Text, text_eq, codes, ℤ, List, [], ◌∷◌, ◌++◌}
use koprobe.Float.{Double}
use koprobe.GoMap.Ranging.{Order}
use koprobe.Aggregator.{TeamCost, Aggregator, latest_snapshot}
use koprobe.Prometheus.{Sample, Value, each, scrape}
use koprobe.Prometheus.Lines.{print_sample}
use koprobe.Web.{Request, Response, Handler, fresh, serve_mux, write_ok}

-- a page of samples, for the digits of the numbers
unfoldable pub write_samples :
    {F : Type 0} → (Value F → Text) → List (Sample F) → Response → Response
unfolding print_sample each
write_samples digits samples w = record w {
  headers = w.headers ++ ((codes "Content-Type", codes "text/plain; version=0.0.4") ∷ []);
  body = w.body ++ each (print_sample digits) samples;
}

module _ {F : Type 0} ⦃d : Double F⦄ (digits : Value F → Text) (order : Order (Text × TeamCost F))
    (now : ℤ) (a : Aggregator F) where
  unfoldable pub handle_metrics : Handler
  unfolding write_samples scrape
  handle_metrics req w = write_samples digits (scrape order (latest_snapshot now a)) w

  unfoldable pub handle_health : Handler
  unfolding write_ok
  handle_health req w = write_ok (record w { status = 200 })

  -- the routes of `Start`
  unfoldable pub routes : List (Text × Handler)
  unfolding handle_metrics handle_health
  routes = (codes "/metrics", handle_metrics) ∷ (codes "/healthz", handle_health) ∷ []

  -- the answer to a request
  unfoldable pub serve : Handler → Request → Response
  unfolding routes serve_mux
  serve unmatched req = serve_mux unmatched routes req fresh
