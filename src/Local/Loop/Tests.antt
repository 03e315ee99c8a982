-- ===== src/Local/Loop/Tests.antt =====
-- Two rounds of the simulator.
use mathlib.Core.List.{Memᴰ}
use koprobe.Prelude.{
  All, ◌⊎◌, some, none, false, text_eq, arith, ◌+◌, ◌≡◌, refl, min, ℕ, pos, Text, length, map, [],
  ◌∷◌,
}
use koprobe.Float.{◌⊖◌, ◌⊗◌, ◌⊘◌}
use koprobe.Float.Laws.{IsFinite}
use koprobe.Float.Pico.{Pico, pico_double, Pico-IsOrdered, Pico-IsRounded, Pico-IsFinitary}
use koprobe.Sorting.{insertion}
use koprobe.GoMap.{keys}
use koprobe.Local.{Store, team_totals}
use koprobe.Local.Samples.{draw, sin, first, second}
use koprobe.Local.Dashboard.{Screen, print_dashboard}
use koprobe.Local.Dashboard.Rows.{has_bar}
use koprobe.Local.Dashboard.Screens.{IsScreenOf}
use koprobe.Local.Simulate.Loads.{IsSource, IsNonnegMetrics}
use koprobe.Local.Loop.Costs.{print_dashboard-rounds}
use koprobe.GoMap.Ranging.{forwards}
use koprobe.Local.Simulate.Ticks.{measured, profiled}
use koprobe.Local.Cluster.{build_cluster}
use koprobe.Local.Loop.{launch, rounds, rounds-launch}

rounds-launch_example :
    (map measured (rounds draw sin (first ∷ second ∷ []) (launch draw sin (pos 1) 0)).store.latest
      ≡ map profiled (build_cluster {F = Pico}))
    × (length (rounds draw sin (first ∷ second ∷ []) (launch draw sin (pos 1) 0)).store.history
        ≡ min 480 (length (second ∷ []) + 1))
    × ((rounds draw sin (first ∷ second ∷ []) (launch draw sin (pos 1) 0)).sim.tick
        ≡ length (second ∷ []) + 1)
rounds-launch_example = rounds-launch draw sin (pos 1) 0 first (second ∷ [])

pods_shown : length (build_cluster {F = Pico}) ≡ 13
unfolding build_cluster
pods_shown = refl

finite : (x : Pico) → IsFinite {F = Pico} x
finite x = ground arith

abbrev centred : ℕ → Pico
centred n = ((draw n).0 ⊖ pico_double.lit 5 1) ⊗ pico_double.lit 15 2

source : IsSource draw sin
source = record {
  noise_finite = λ n. finite (centred n);
  small_finite = λ n. finite (centred n ⊗ pico_double.lit 8 2);
  wave_finite = λ x h. finite (pico_double.lit 25 2 ⊗ sin x);
  phase_finite = λ n h. finite (pico_double.of_ℤ (pos n) ⊘ pico_double.lit 18 0);
}

abbrev last : Store Pico
last = (rounds draw sin (first ∷ second ∷ []) (launch draw sin (pos 1) 0)).store

print_dashboard-rounds_example :
    (All IsNonnegMetrics last.latest)
    × (((s : Screen Pico) × (print_dashboard forwards insertion insertion last 1 ≡ some s)
          × IsScreenOf Pico-IsOrdered Pico-IsRounded last 1 s)
        ⊎ ((team : Text) × Memᴰ team (keys (team_totals last.latest))
            × (has_bar last.latest team ≡ false)
            × (print_dashboard forwards insertion insertion last 1 ≡ none)))
print_dashboard-rounds_example =
    print_dashboard-rounds Pico-IsOrdered Pico-IsRounded Pico-IsFinitary draw sin source forwards
      insertion insertion (pos 1) 0 (first ∷ second ∷ []) 1 (omega arith)
