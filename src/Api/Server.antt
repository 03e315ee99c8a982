-- ===== src/Api/Server.antt =====
-- internal/exporter/api.go: the routes of the server and the middleware around them. What a handler
-- reads besides the aggregator and the request is given once for each request.
mod Tests
use mathlib.Core.List.{Memᴰ}
use mathlib.Core.Path.{subst}
use koprobe.Prelude.{
  sym, map, ◌≡◌, refl, ap, ◌∙◌, ◌==◌, text_eq, Text, codes, ℤ, Bool-cases, inl, inr, Option, none,
  some, List, [], ◌∷◌, ◌++◌, if◌then◌else◌, Option-cases,
}
use koprobe.Float.{Double}
use koprobe.GoMap.{Map, lookup}
use koprobe.GoMap.Ranging.{Order}
use koprobe.Sorting.{Sorter}
use koprobe.Aggregator.{PodCost, TeamCost, Aggregator, latest_snapshot}
use koprobe.Api.{
  Summary, TeamEntry, Point, cors, summary, by_team, by_namespace, by_pod, waste, history,
}
use koprobe.Web.Routes.{answering, serve_mux-pages}
use koprobe.Web.Serving.{listen_and_serve, listen_and_serve-stands}
use koprobe.Tickers.{Signal, Progress, returned}
use koprobe.Tickers.Rounds.{ticks_before, stands}
use koprobe.Web.{Request, Response, Handler, fresh, serve_mux, write_json}

-- The values of an answer, with their instant.
pub data Page (F : Type 0) : Type 0 where
  totals : Summary F → Page F
  teams : List (TeamEntry F) → ℤ → Page F
  namespaces : Map Text F → ℤ → Page F
  pods : List (PodCost F) → ℤ → Page F
  wasted : List (PodCost F) → F → ℤ → Page F
  points : List (Point F) → Page F

-- The orders of the loops, what `sort.Slice` and `Sscanf` do, and the clock.
pub record Reads (F : Type 0) : Type 0 where
  pub team_order : Order (Text × TeamCost F)
  pub cost_order : Order (Text × PodCost F)
  pub team_sorter : Sorter (TeamEntry F)
  pub pod_sorter : Sorter (PodCost F)
  pub scan : Text → F
  pub now : ℤ

-- a response with the headers of the middleware alone
abbrev pub allowed : Response
allowed = record fresh {
  headers =
      (codes "Access-Control-Allow-Origin", codes "*")
      ∷ (codes "Access-Control-Allow-Methods", codes "GET, OPTIONS")
      ∷ (codes "Access-Control-Allow-Headers", codes "Content-Type")
      ∷ [];
}

-- the header that lets every origin read an answer
abbrev pub origin : Text × Text
origin = (codes "Access-Control-Allow-Origin", codes "*")

module _ {F : Type 0} ⦃d : Double F⦄ (encode : Page F → Text) (r : Reads F) (a : Aggregator F) where
  unfoldable pub handle_summary : Request → Page F
  handle_summary req = totals (summary (latest_snapshot r.now a))

  unfoldable pub handle_by_team : Request → Page F
  handle_by_team req =
      let snap = latest_snapshot r.now a in
      teams (by_team r.team_order r.team_sorter snap) snap.timestamp

  unfoldable pub handle_by_namespace : Request → Page F
  handle_by_namespace req =
      let snap = latest_snapshot r.now a in namespaces (by_namespace snap) snap.timestamp

  unfoldable pub handle_by_pod : Request → Page F
  handle_by_pod req =
      let snap = latest_snapshot r.now a in
      pods (by_pod r.pod_sorter (req.query (codes "namespace")) (req.query (codes "team")) snap)
        snap.timestamp

  unfoldable pub handle_waste : Request → Page F
  handle_waste req = let (found, total) = waste r.cost_order a in wasted found total r.now

  unfoldable pub handle_history : Request → Page F
  handle_history req = points (history r.scan (req.query (codes "hours")) r.now a)

  -- the routes of `Start`
  unfoldable pub routes : List (Text × Handler)
  unfolding handle_summary handle_by_team handle_by_namespace handle_by_pod handle_waste
      handle_history
  routes =
      (codes "/api/v1/costs/summary", answering encode handle_summary)
      ∷ (codes "/api/v1/costs/by-team", answering encode handle_by_team)
      ∷ (codes "/api/v1/costs/by-namespace", answering encode handle_by_namespace)
      ∷ (codes "/api/v1/costs/by-pod", answering encode handle_by_pod)
      ∷ (codes "/api/v1/costs/waste", answering encode handle_waste)
      ∷ (codes "/api/v1/costs/history", answering encode handle_history)
      ∷ []

  -- the answer to a request
  unfoldable pub serve : Handler → Request → Response
  unfolding routes
  serve unmatched req = cors (serve_mux unmatched routes req) req.method fresh

  -- the page of each path
  abbrev pub pages : Request → List (Text × Page F)
  pages req =
      (codes "/api/v1/costs/summary", handle_summary req)
      ∷ (codes "/api/v1/costs/by-team", handle_by_team req)
      ∷ (codes "/api/v1/costs/by-namespace", handle_by_namespace req)
      ∷ (codes "/api/v1/costs/by-pod", handle_by_pod req)
      ∷ (codes "/api/v1/costs/waste", handle_waste req)
      ∷ (codes "/api/v1/costs/history", handle_history req)
      ∷ []

  handlers : List (Text × (Request → Page F))
  handlers =
      (codes "/api/v1/costs/summary", handle_summary)
      ∷ (codes "/api/v1/costs/by-team", handle_by_team)
      ∷ (codes "/api/v1/costs/by-namespace", handle_by_namespace)
      ∷ (codes "/api/v1/costs/by-pod", handle_by_pod)
      ∷ (codes "/api/v1/costs/waste", handle_waste)
      ∷ (codes "/api/v1/costs/history", handle_history)
      ∷ []

  answered :
      (unmatched : Handler) (req : Request)
      → serve unmatched req ≡ (
          if req.method == codes "OPTIONS" then allowed else elim (lookup req.path (pages req)) [
            | none ↦ unmatched req allowed
            | some page ↦ write_json (encode page) allowed
          ])
  unfolding serve cors routes handlers serve_mux lookup
  answered unmatched req = elim (Bool-cases (req.method == codes "OPTIONS")) [
    | inl e ↦ rw e refl
    | inr e ↦ rw e (serve_mux-pages encode unmatched req allowed handlers [])
  ]

  -- The answer to every request, for whatever the library does about unknown paths as long as it keeps
  -- the headers that are set: it carries the header that lets every origin read it; a request by
  -- OPTIONS gets the three headers of the middleware, the status 200 and no body, whatever its path;
  -- any other request for one of the six paths gets that path's page as JSON with the status 200, and
  -- one for another path what the library answers.
  pub serve-cases :
      (unmatched : Handler)
      → ((req : Request) (w : Response)
          → Memᴰ origin w.headers
          → Memᴰ origin (unmatched req w).headers)
      → (req : Request)
      → Memᴰ origin (serve unmatched req).headers
        × (serve unmatched req ≡ (
            if req.method == codes "OPTIONS" then allowed else elim (lookup req.path (pages req)) [
              | none ↦ unmatched req allowed
              | some page ↦ record {
                headers =
                    allowed.headers ++ ((codes "Content-Type", codes "application/json") ∷ []);
                status = 200;
                body = encode page;
              }
            ]))
  unfolding write_json
  serve-cases unmatched keeps req =
      let same = answered unmatched req in
      (subst (λ w. Memᴰ origin w.headers) (sym same) marked, same)
    where
      marked :
          Memᴰ origin
            (if req.method == codes "OPTIONS" then allowed else elim (lookup req.path (pages req)) [
              | none ↦ unmatched req allowed
              | some page ↦ write_json (encode page) allowed
            ]).headers
      marked = elim (Bool-cases (req.method == codes "OPTIONS")) [
        | inl e ↦ rw e (Memᴰ.head refl)
        | inr e ↦ elim (Option-cases (lookup req.path (pages req))) [
          | inl q ↦ rw (e, q) (keeps req allowed (Memᴰ.head refl))
          | inr (page, q) ↦ rw (e, q) (Memᴰ.head refl)
        ]
      ]
