-- ===== src/Exports/Tests.antt =====
-- The exporters on a snapshot of two pods of two teams.
use mathlib.Core.List.{Permᴰ}
use koprobe.Prelude.{◌≡◌, codes, pos, map, [], ◌∷◌}
use koprobe.Float.Pico.{pico_double}
use koprobe.GoMap.Ranging.{forwards, backwards}
use koprobe.Sorting.{insertion}
use koprobe.Aggregator.{build_snapshot}
use koprobe.Api.{summary, by_team, by_pod}
use koprobe.Api.Tests.{costs}
use koprobe.Prometheus.{sample, scrape}
use koprobe.Prometheus.Totals.{named, pod_sample}
use koprobe.Exports.{row_sample, scrape-by_team-perm}

scrape-by_team-perm_example :
    Permᴰ
      (named (codes "koprobe_team_cost_total") (scrape forwards (build_snapshot (pos 9) costs)))
      (map row_sample (by_team backwards insertion (build_snapshot (pos 9) costs)))
    × Permᴰ
        (named (codes "koprobe_pod_cost_total") (scrape forwards (build_snapshot (pos 9) costs)))
        (map pod_sample (by_pod insertion [] [] (build_snapshot (pos 9) costs)))
    × (named (codes "koprobe_cluster_cost_total") (scrape forwards (build_snapshot (pos 9) costs))
        ≡ sample [] (
          codes "koprobe_cluster_cost_total",
          (summary (build_snapshot (pos 9) costs)).total_cost,
        )
          ∷ [])
scrape-by_team-perm_example =
    scrape-by_team-perm forwards backwards insertion insertion (pos 9) costs
