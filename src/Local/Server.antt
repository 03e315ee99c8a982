-- ===== src/Local/Server.antt =====
-- cmd/local/main.go: the routes of the server. What a handler reads besides the store and the request
-- is given once for each request.
use koprobe.Prelude.{ℕ, Text, text_eq, codes, ℤ, List, [], ◌∷◌}
use koprobe.Float.{Double}
use koprobe.GoMap.Ranging.{Order}
use koprobe.Sorting.{Sorter}
use koprobe.Local.{PodMetrics, HistoryPoint, Alert, Store}
use koprobe.Local.Pages.{Summary, TeamRow, summary, by_team, waste, alerts_page}
use koprobe.Local.Queries.{by_pod, history, prometheus, cors}
use koprobe.Prometheus.{Value}
use koprobe.Prometheus.Server.{write_samples}
use koprobe.Web.Routes.{answering}
use koprobe.Web.{Request, Response, Handler, fresh, serve_mux, write_ok}

-- The values of an answer, with their instant; those of the summary with the instant of the start.
pub data Page (F : Type 0) : Type 0 where
  totals : Summary F → (now start : ℤ) → Page F
  teams : List (TeamRow F) → ℤ → Page F
  pods : List (PodMetrics F) → ℤ → Page F
  wasted : List (PodMetrics F) → F → ℕ → Page F
  points : List (HistoryPoint F) → Page F
  alerts : List (Alert F) → ℕ → Page F

-- The orders of the loops, what `sort.Slice` does, the clock, and the zero value of an alert.
pub record Reads (F : Type 0) : Type 0 where
  pub team_order : Order (Text × TeamRow F)
  pub team_sorter : Sorter (TeamRow F)
  pub pod_sorter : Sorter (PodMetrics F)
  pub now : ℤ
  pub blank : Alert F

module _ {F : Type 0} ⦃d : Double F⦄ (encode : Page F → Text) (digits : Value F → Text)
    (r : Reads F) (st : Store F) where
  -- what the handlers pass to `writeJSON`
  unfoldable pub page_summary : Request → Page F
  page_summary req = totals (summary st) r.now st.start

  unfoldable pub page_by_team : Request → Page F
  page_by_team req = teams (by_team r.team_order r.team_sorter st) r.now

  unfoldable pub page_by_pod : Request → Page F
  page_by_pod req =
      pods (by_pod r.pod_sorter (req.query (codes "team")) (req.query (codes "namespace")) st) r.now

  unfoldable pub page_waste : Request → Page F
  page_waste req = let (found, total, count) = waste r.pod_sorter st in wasted found total count

  unfoldable pub page_history : Request → Page F
  page_history req = points (history st)

  unfoldable pub page_alerts : Request → Page F
  page_alerts req = let (rev, count) = alerts_page r.blank st in alerts rev count

  -- the routes of `Start`
  unfoldable pub routes : List (Text × Handler)
  unfolding page_summary page_by_team page_by_pod page_waste page_history page_alerts
  routes =
      (codes "/api/v1/costs/summary", answering encode page_summary)
      ∷ (codes "/api/v1/costs/by-team", answering encode page_by_team)
      ∷ (codes "/api/v1/costs/by-pod", answering encode page_by_pod)
      ∷ (codes "/api/v1/costs/waste", answering encode page_waste)
      ∷ (codes "/api/v1/costs/history", answering encode page_history)
      ∷ (codes "/api/v1/alerts", answering encode page_alerts)
      ∷ (codes "/metrics", λ req w. write_samples digits (prometheus st) w)
      ∷ (codes "/healthz", λ req w. write_ok w)
      ∷ []

  -- the answer to a request
  unfoldable pub serve : Handler → Request → Response
  unfolding routes
  serve unmatched req = cors (serve_mux unmatched routes req) req.method fresh
