-- ===== src/Local/Loop/Costs.antt =====
-- The signs of the costs in every state of the simulator, and its dashboard.
use mathlib.Core.List.{Memᴰ}
use koprobe.Prelude.{
  ◌≡◌, ◌+◌, ◌<◌, ◌^◌, arith, length, false, ◌⊎◌, text_eq, Text, ℤ, ℕ, All, All-imp, some, none,
  List, [], ◌∷◌,
}
use koprobe.Float.{Double}
use koprobe.Float.Laws.{IsOrdered, IsRounded, IsFinitary, IsNonneg}
use koprobe.GoMap.{keys}
use koprobe.GoMap.Ranging.{Order}
use koprobe.Sorting.{Sorter}
use koprobe.Local.{PodMetrics, new_store, team_totals, update}
use koprobe.Local.Simulate.{tick}
use koprobe.Local.Simulate.Loads.{IsSource, HasLoads, IsNonnegMetrics}
use koprobe.Local.Simulate.Signs.{tick-All}
use koprobe.Local.Cluster.{new_simulator}
use koprobe.Local.Cluster.Loads.{build_cluster-All}
use koprobe.Local.Dashboard.{Screen, print_dashboard}
use koprobe.Local.Dashboard.Rows.{has_bar}
use koprobe.Local.Dashboard.Screens.{IsScreenOf, print_dashboard-cases}
use koprobe.Local.Loop.{Program, Round, launch, round, rounds}

module _ {F : Type 0} ⦃d : Double F⦄ (ordered : IsOrdered F) (rounded : IsRounded F)
    (finitary : IsFinitary F) {R : Type 0} (draw : R → F × R) (sin : F → F)
    (source : IsSource draw sin) where
  rounds-All :
      (rs : List (Round F)) (p : Program F R)
      → p.sim.tick + length rs < 2 ^ 63
      → All HasLoads p.sim.pods
      → All IsNonnegMetrics p.store.latest
      → All IsNonnegMetrics (rounds draw sin rs p).store.latest
  unfolding rounds round update
  rounds-All [] p fits loads costs = costs
  rounds-All (r ∷ rs) p fits loads costs =
      let (next, kept) =
        tick-All ordered rounded finitary draw sin source r.ticked_at p.sim (omega (arith, fits))
          loads in
      rounds-All rs (round draw sin r p) (unfold tick in omega (arith, fits)) kept next

  launched :
      (now : ℤ) (rng : R) (rs : List (Round F))
      → length rs < 2 ^ 63
      → All IsNonnegMetrics (rounds draw sin rs (launch draw sin now rng)).store.latest
  launched now rng rs fits =
      rounds-All rs (launch draw sin now rng) (unfold launch new_simulator in omega (arith, fits))
        (unfold launch new_simulator in build_cluster-All ordered rounded finitary)
        (unfold launch new_store in tt)

  -- After any number of rounds of the simulator that fits an `int`, all costs that the store shows are at least 0, and
  -- the dashboard is a full screen, which shows every team once, by falling cost, with a bar of twenty
  -- cells and the sums over its own pods, then the six costliest pods, and the last three alerts; or
  -- the program panics, and then some team's bar would have had fewer than none or more than twenty
  -- full cells. This whatever the clocks and the orders of the loops, for random numbers that are
  -- finite where they are scaled and a sine that is finite of finite numbers, as `IsSource` says, and
  -- where numbers are ordered and round as `IsOrdered`, `IsRounded` and `IsFinitary` say.
  pub print_dashboard-rounds :
      (order : Order (Text × F)) (team_sorter : Sorter Text) (pod_sorter : Sorter (PodMetrics F))
      (now : ℤ) (rng : R) (rs : List (Round F)) (count : ℕ)
      → length rs < 2 ^ 63
      → (All IsNonnegMetrics (rounds draw sin rs (launch draw sin now rng)).store.latest)
        × (((s : Screen F) × (print_dashboard order team_sorter pod_sorter
                  (rounds draw sin rs (launch draw sin now rng)).store
                  count
                ≡ some s)
              × IsScreenOf ordered rounded
                  (rounds draw sin rs (launch draw sin now rng)).store
                  count
                  s)
            ⊎ ((team : Text) × Memᴰ team
                  (keys (team_totals (rounds draw sin rs (launch draw sin now rng)).store.latest))
                × (has_bar (rounds draw sin rs (launch draw sin now rng)).store.latest team ≡ false)
                × (print_dashboard order team_sorter pod_sorter
                      (rounds draw sin rs (launch draw sin now rng)).store
                      count
                    ≡ none)))
  print_dashboard-rounds order team_sorter pod_sorter now rng rs count fits =
      let costs = launched now rng rs fits in
      (
        costs,
        print_dashboard-cases ordered rounded order team_sorter pod_sorter _ count
            (All-imp IsNonnegMetrics (λ m. IsNonneg m.total_cost) _ (λ m h. h.total) costs),
      )
