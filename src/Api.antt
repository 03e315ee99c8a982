-- ===== src/Api.antt =====
-- internal/exporter/api.go: what each handler answers, as a function of the aggregator. The query
-- parameters and `sort.Slice` are arguments. Server has the routes.
pub mod Teams
pub mod Pages
pub mod Ranked
pub mod Recent
pub mod Server
pub mod Serving
pub mod Tests
use koprobe.Prelude.{
  ℕ, ◌*◌, ◌^◌, ◌≡◌, ◌==◌, text_eq, Bool, ◌&&◌, not, Text, codes, ℤ, pos, int64, length, map, List,
  [], ◌∷◌, ◌++◌, if◌then◌else◌,
}
use koprobe.Float.{Double, ◌⊗◌, ◌≺◌}
use koprobe.Float.Sums.{sum, tally}
use koprobe.GoMap.{Map, values}
use koprobe.GoMap.Ranging.{Order}
use koprobe.Sorting.{Sorter}
use koprobe.Web.{Response}
use koprobe.Aggregator.{
  PodCost, TeamCost, Snapshot, Aggregator, latest_snapshot, history_since, waste_report,
}

pub record Summary (F : Type 0) : Type 0 where
  pub timestamp : ℤ
  pub total_cost : F
  pub pod_count : ℕ
  pub team_count : ℕ

pub record TeamEntry (F : Type 0) : Type 0 where
  pub team : Text
  pub total_cost : F
  pub wasted_cost : F
  pub pod_count : ℕ
  pub cpu_cost : F
  pub mem_cost : F
  pub net_cost : F
  pub disk_cost : F

pub record Point (F : Type 0) : Type 0 where
  pub time : ℤ
  pub cost : F

-- `corsMiddleware`, around a handler and for the method of a request
unfoldable pub cors : (Response → Response) → Text → Response → Response
cors next method w =
    let allowed = record w {
      headers =
          w.headers
          ++ ((codes "Access-Control-Allow-Origin", codes "*")
              ∷ (codes "Access-Control-Allow-Methods", codes "GET, OPTIONS")
              ∷ (codes "Access-Control-Allow-Headers", codes "Content-Type")
              ∷ []);
    } in
    if method == codes "OPTIONS" then record allowed { status = 200 } else next allowed

module _ {F : Type 0} ⦃d : Double F⦄ where
  open d use {lit, trunc}

  unfoldable pub summary : Snapshot F → Summary F
  summary snap = record {
    timestamp = snap.timestamp;
    total_cost = snap.total;
    pod_count = length snap.pod_costs;
    team_count = length snap.team_costs;
  }

  -- the body of the loop of `handleByTeam`
  unfoldable pub team_entry : TeamCost F → TeamEntry F
  team_entry tc = record {
    team = tc.team;
    total_cost = tc.total_cost;
    wasted_cost = tc.wasted_cost;
    pod_count = tc.pod_count;
    cpu_cost = sum (λ p. p.cpu_cost) tc.pods;
    mem_cost = sum (λ p. p.memory_cost) tc.pods;
    net_cost = sum (λ p. p.network_cost) tc.pods;
    disk_cost = sum (λ p. p.disk_cost) tc.pods;
  }

  unfoldable pub by_team :
      Order (Text × TeamCost F) → Sorter (TeamEntry F) → Snapshot F → List (TeamEntry F)
  by_team order sorter snap =
      sorter.sort (λ a b. b.total_cost ≺ a.total_cost)
        (map team_entry (values (order.visit snap.team_costs)))

  unfoldable pub by_namespace : Snapshot F → Map Text F
  by_namespace snap = tally (λ p. p.namespace) (λ p. p.total_cost) snap.pod_costs

  -- the loop of `handleByPod`; an empty parameter is no filter
  unfoldable pub filter_pods : Text → Text → List (PodCost F) → List (PodCost F)
  filter_pods namespace team [] = []
  filter_pods namespace team (p ∷ pods) =
      let rest = filter_pods namespace team pods in
      if not (namespace == []) && not (p.namespace == namespace)
      then rest
      else if not (team == []) && not (p.team == team)
      then rest
      else p ∷ rest

  unfoldable pub by_pod : Sorter (PodCost F) → Text → Text → Snapshot F → List (PodCost F)
  unfolding filter_pods
  by_pod sorter namespace team snap =
      sorter.sort (λ a b. b.total_cost ≺ a.total_cost) (filter_pods namespace team snap.pod_costs)

  -- the wasteful pods and what they waste in all
  unfoldable pub waste : Order (Text × PodCost F) → Aggregator F → List (PodCost F) × F
  waste order a = let wasted = waste_report order a in (wasted, sum (λ p. p.wasted_dollars) wasted)

  -- 24 hours, or the hours of the parameter, where `scan` is what `Sscanf` leaves in `hours`; a
  -- duration has 64 bits
  unfoldable pub duration : (Text → F) → Text → ℤ
  duration scan hours =
      if not (hours == [])
      then int64 (trunc (scan hours ⊗ lit (3600 * 10 ^ 9) 0))
      else pos (24 * 3600 * 10 ^ 9)

  abbrev pub point : Snapshot F → Point F
  point snap = record { time = snap.timestamp; cost = snap.total }

  unfoldable pub history : (Text → F) → Text → ℤ → Aggregator F → List (Point F)
  unfolding duration
  history scan hours now a = map point (history_since now (duration scan hours) a)
