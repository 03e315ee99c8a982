-- ===== src/Local/Loop.antt =====
-- cmd/local/main.go: `main` from its first tick on. Each round ticks the simulator and updates the
-- store with its metrics; the instants and the orders of the loops are those of the round. A panic of
-- the dashboard ends the program between two rounds: the states before it are those of fewer rounds.
pub mod Costs
mod Tests
use mathlib.Core.Path.{subst}
use koprobe.Prelude.{
  Bool, Option, some, if◌then◌else◌, text_eq, ◌+◌, ℕ, suc, ◌≡◌, refl, ap, ◌∙◌, sym, Text, ℤ, length,
  map, List, [], ◌∷◌, ◌++◌, arith, min, length-append,
}
use koprobe.Float.{Double}
use koprobe.GoMap.Ranging.{Order}
use koprobe.Window.{length-suffix}
use koprobe.Baselines.{deserved}
use koprobe.Float.Sums.{sum}
use koprobe.Sorting.{Sorter}
use koprobe.Local.Dashboard.{Screen, ◌>>=◌, print_dashboard}
use koprobe.Local.{
  PodMetrics, HistoryPoint, Alert, Store, new_store, team_totals, trends, point_of, update,
}
use koprobe.Local.Recent.{Run, started, updated, update-suffix}
use koprobe.Local.Simulate.{PodProfile, Simulator, tick}
use koprobe.Local.Simulate.Ticks.{Identity, measured, profiled, settings, tick-map}
use koprobe.Local.Cluster.{build_cluster, new_simulator}

pub record Program (F R : Type 0) : Type 0 where
  pub sim : Simulator F R
  pub store : Store F

-- What one round takes from outside.
pub record Round (F : Type 0) : Type 0 where
  pub ticked_at : ℤ
  pub updated_at : ℤ
  pub alerted_at : Text → ℤ
  pub order : Order (Text × F)

map-settings :
    {F : Type 0} ⦃d : Double F⦄ (ps : List (PodProfile F))
    → map profiled (map settings ps) ≡ map profiled ps
map-settings [] = refl
map-settings (p ∷ ps) = ap (◌∷◌ (profiled p)) (map-settings ps)

-- What is printed after a round.
pub data Report (F : Type 0) : Type 0 where
  dashboard : Screen F → Report F
  log_line : ℕ → F → ℕ → Report F

-- the end of the body of the loop, with the loop's own count of ticks: `none` is a panic
unfoldable pub report :
    {F : Type 0} ⦃d : Double F⦄
    → (no_ui : Bool) → Order (Text × F)
    → Sorter Text
    → Sorter (PodMetrics F)
    → ℕ
    → List (PodMetrics F)
    → Store F
    → Option (Report F)
report no_ui order team_sorter pod_sorter count metrics st =
    if no_ui
    then some (log_line count (sum (λ m. m.total_cost) metrics) (length metrics))
    else do s ← print_dashboard order team_sorter pod_sorter st count; some (dashboard s)

module _ {F : Type 0} ⦃d : Double F⦄ {R : Type 0} (draw : R → F × R) (sin : F → F) where
  unfoldable pub launch : ℤ → R → Program F R
  launch now rng = record { sim = new_simulator rng; store = new_store now }

  -- `metrics = sim.Tick(); store.Update(metrics)`
  unfoldable pub round : Round F → Program F R → Program F R
  round r p =
      let (metrics, sim) = tick draw sin r.ticked_at p.sim in
      record { sim = sim; store = update r.order r.alerted_at r.updated_at metrics p.store }

  unfoldable pub rounds : List (Round F) → Program F R → Program F R
  unfolding round
  rounds [] p = p
  rounds (r ∷ rs) p = rounds rs (round r p)

  names_of :
      (ps qs : List (PodProfile F))
      → map settings ps ≡ map settings qs
      → map profiled ps ≡ map profiled qs
  names_of ps qs same = sym (map-settings ps) ∙ ap (map profiled) same ∙ map-settings qs

  -- What holds of the program once it has ticked `ticks` times.
  pub record IsSteady (ticks : ℕ) (p : Program F R) : Type 0 where
    pub points : List (HistoryPoint F)
    pub alerts : List (Alert F)
    pub run : Run points alerts p.store
    pub length_points : length points ≡ ticks
    pub same_cluster : map settings p.sim.pods ≡ map settings build_cluster
    pub counted : p.sim.tick ≡ ticks

  launch-IsSteady : (now : ℤ) (rng : R) → IsSteady 0 (launch now rng)
  unfolding launch new_simulator
  launch-IsSteady now rng = record {
    points = [];
    alerts = [];
    run = started now;
    length_points = refl;
    same_cluster = refl;
    counted = refl;
  }

  round-IsSteady :
      (r : Round F) (ticks : ℕ) (p : Program F R)
      → IsSteady ticks p
      → IsSteady (ticks + 1) (round r p)
        × (map measured (round r p).store.latest ≡ map profiled (build_cluster {F = F}))
  unfolding round update
  round-IsSteady r ticks p inv =
      let (metrics, sim) = tick draw sin r.ticked_at p.sim in
      let (names, sets, count) = tick-map draw sin r.ticked_at p.sim in
      (
        record {
          points = inv.points ++ (point_of r.updated_at metrics ∷ []);
          alerts =
              inv.alerts
              ++ deserved (trends r.alerted_at) p.store.baselines
                  (r.order.visit (team_totals metrics));
          run = updated r.order r.alerted_at r.updated_at metrics inv.run;
          length_points =
              length-append inv.points (point_of r.updated_at metrics ∷ [])
              ∙ ap (λ n. n + 1) inv.length_points;
          same_cluster = sets ∙ inv.same_cluster;
          counted = count ∙ ap (λ n. n + 1) inv.counted;
        },
        names ∙ names_of p.sim.pods build_cluster inv.same_cluster,
      )

  rounds-IsSteady :
      (rs : List (Round F)) (ticks : ℕ) (p : Program F R)
      → IsSteady ticks p
      → IsSteady (ticks + length rs) (rounds rs p)
  unfolding rounds
  rounds-IsSteady [] ticks p inv = subst (λ (n : ℕ). IsSteady n p) (omega arith) inv
  rounds-IsSteady (r ∷ rs) ticks p inv =
      let (next, _) = round-IsSteady r ticks p inv in
      subst (λ (n : ℕ). IsSteady n (rounds rs (round r p))) (omega arith)
        (rounds-IsSteady rs (ticks + 1) (round r p) next)

  rounds-names :
      (rs : List (Round F)) (ticks : ℕ) (p : Program F R)
      → IsSteady ticks p
      → map measured p.store.latest ≡ map profiled (build_cluster {F = F})
      → map measured (rounds rs p).store.latest ≡ map profiled (build_cluster {F = F})
  unfolding rounds
  rounds-names [] ticks p inv same = same
  rounds-names (r ∷ rs) ticks p inv same =
      let (next, names) = round-IsSteady r ticks p inv in
      rounds-names rs (ticks + 1) (round r p) next names

  -- From the first round on, whatever the random numbers, the clocks and the orders of the loops, the
  -- store shows the pods of the simulated cluster, each once, in the cluster's order and under its own
  -- names; the history has a point for each round, up to the last 480; and the simulator has ticked
  -- once for each round.
  pub rounds-launch :
      (now : ℤ) (rng : R) (r : Round F) (rs : List (Round F))
      → (map measured (rounds (r ∷ rs) (launch now rng)).store.latest
          ≡ map profiled (build_cluster {F = F}))
        × (length (rounds (r ∷ rs) (launch now rng)).store.history ≡ min 480 (length rs + 1))
        × ((rounds (r ∷ rs) (launch now rng)).sim.tick ≡ length rs + 1)
  rounds-launch now rng r rs =
      let start = launch-IsSteady now rng in
      let (first, names) = round-IsSteady r 0 (launch now rng) start in
      let all = rounds-IsSteady rs 1 (round r (launch now rng)) first in
      let (history, _) = update-suffix all.run in
      unfold rounds in
      (
        rounds-names rs 1 (round r (launch now rng)) first names,
        ap length history
            ∙ length-suffix 480 all.points
            ∙ ap (min 480) (all.length_points ∙ omega arith),
        all.counted ∙ omega arith,
      )
