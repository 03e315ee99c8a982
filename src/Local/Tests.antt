-- ===== src/Local/Tests.antt =====
-- Two updates of the store over two pods of one team, the second with a spike in costs.
use mathlib.Core.List.{Memᴰ, Permᴰ}
use koprobe.Sorting.{insertion}
use koprobe.Local.{Level}
use koprobe.Prelude.{
  some, ℕ, ◌≡◌, refl, Text, codes, ℤ, pos, List, map, select, [], ◌∷◌, text_eq, ◌++◌, length,
}
use koprobe.Float.Pico.{Pico, pico_double}
use koprobe.Float.Sums.{sum, sum_of}
use koprobe.GoMap.{lookup}
use koprobe.GoMap.Ranging.{forwards, backwards}
use koprobe.Window.{suffix}
use koprobe.Baselines.{renewed, deserved}
use koprobe.Local.{
  PodMetrics, HistoryPoint, Alert, Store, new_store, team_totals, trends, point_of, update,
}
use koprobe.Local.Recent.{Run, started, updated, update-suffix}
use koprobe.Prometheus.{sample}
use koprobe.Prometheus.Totals.{named}
use koprobe.Local.Queries.{asked, by_pod, metric_labels, prometheus, prometheus-summary-perm}
use koprobe.Local.Pages.{summary, TeamRow, with_pct, by_team}
use koprobe.Local.Pages.Rows.{row_of, by_team_rows_iff}
use koprobe.Local.Totals.{pods_of, lookup-update}

abbrev pod : Text → ℕ → PodMetrics Pico
pod name cost = record {
  pod_name = name;
  namespace = codes "ml";
  team = codes "ml";
  service = name;
  feature = [];
  environment = codes "production";
  cpu_cycles_billion = pos 0;
  memory_gb_hours = pos 0;
  network_egress_gb = pos 0;
  network_cross_az_gb = pos 0;
  network_internet_gb = pos 0;
  disk_read_miops = pos 0;
  disk_write_miops = pos 0;
  cpu_util_pct = pos 0;
  wasted_dollars = pos 0;
  cpu_cost = pos 0;
  memory_cost = pos 0;
  network_cost = pos 0;
  disk_cost = pos 0;
  total_cost = pos cost;
}

abbrev quiet : List (PodMetrics Pico)
quiet = pod (codes "a") 100 ∷ pod (codes "b") 200 ∷ []

abbrev spiking : List (PodMetrics Pico)
spiking = pod (codes "a") 100 ∷ pod (codes "b") 900 ∷ []

abbrev clock : Text → ℤ
clock team = pos 7

abbrev once : Store Pico
once = update forwards clock (pos 6) quiet (new_store (pos 1))

abbrev pub twice : Store Pico
twice = update backwards clock (pos 9) spiking once

abbrev called_for : List (Alert Pico)
called_for =
    deserved (trends clock) (new_store {F = Pico} (pos 1)).baselines
      (forwards.visit (team_totals quiet))
    ++ deserved (trends clock) once.baselines (backwards.visit (team_totals spiking))

Run-twice : Run (point_of (pos 6) quiet ∷ point_of (pos 9) spiking ∷ []) called_for twice
Run-twice =
    updated backwards clock (pos 9) spiking (updated forwards clock (pos 6) quiet (started (pos 1)))

update-suffix_example :
    (twice.history ≡ suffix 480 (point_of (pos 6) quiet ∷ point_of (pos 9) spiking ∷ []))
    × (twice.alerts ≡ suffix 50 called_for)
update-suffix_example = update-suffix Run-twice

alert_sent : length twice.alerts ≡ 1
unfolding update koprobe.Local.cut trends team_totals new_store koprobe.Local.alerts_for
    koprobe.Baselines.check_all koprobe.Baselines.check koprobe.Float.Sums.tally
    koprobe.Float.Sums.add_at koprobe.GoMap.insert lookup
alert_sent = refl

lookup-update_example :
    lookup (codes "ml") twice.baselines
    ≡ renewed
        (trends clock)
        (lookup (codes "ml") once.baselines)
        (sum_of (λ m. m.total_cost) (pods_of (codes "ml") spiking))
lookup-update_example = lookup-update backwards clock (pos 9) spiking once (codes "ml")

by_team_rows_iff_example :
    ((row : TeamRow Pico)
      → Memᴰ row (by_team backwards insertion twice)
      → (team : Text) × (r : TeamRow Pico) × (row_of team (pods_of team twice.latest) ≡ some r)
        × (row ≡ with_pct r))
    × ((team : Text) (r : TeamRow Pico)
        → row_of team (pods_of team twice.latest) ≡ some r
        → Memᴰ (with_pct r) (by_team backwards insertion twice))
by_team_rows_iff_example = by_team_rows_iff backwards insertion twice

abbrev blank : Alert Pico
blank = record { time = pos 0; team = []; level = Level.warning (pos 0) }

prometheus-summary-perm_example :
    Permᴰ (select (asked (codes "ml") []) twice.latest) (by_pod insertion (codes "ml") [] twice)
    × (named (codes "koprobe_pod_cost_total") (prometheus twice)
        ≡ map
            (λ m. sample (metric_labels m) (codes "koprobe_pod_cost_total", m.total_cost))
            twice.latest)
    × (named (codes "koprobe_cluster_cost_total") (prometheus twice)
        ≡ sample [] (codes "koprobe_cluster_cost_total", (summary twice).total_cost) ∷ [])
prometheus-summary-perm_example = prometheus-summary-perm insertion (codes "ml") [] twice
