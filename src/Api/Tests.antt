-- ===== src/Api/Tests.antt =====
-- The handlers over a snapshot of three pods of two teams, and over the start of a run.
use mathlib.Core.List.{Memᴰ}
use koprobe.Prelude.{◌≢◌, All, ◌≡◌, refl, text_eq, Text, codes, pos, ◌*◌, ◌^◌, ℕ, List, [], ◌∷◌}
use koprobe.Float.Pico.{Pico, pico_double, Pico-IsOrdered, Pico-IsRounded}
use koprobe.GoMap.Ranging.{backwards}
use koprobe.Sorting.{insertion}
use koprobe.Collector.{fresh_metrics}
use koprobe.Pricing.{default_prices}
use koprobe.Aggregator.{PodCost, Snapshot, cost_of, build_snapshot}
use koprobe.Aggregator.Tests.{taken, Run-after}
use koprobe.Aggregator.Teams.{pods_of}
use koprobe.Web.{Response}
use koprobe.Api.{TeamEntry, cors, by_team}
use koprobe.Api.Teams.{row_of, by_team_iff}
use koprobe.Api.Ranked.{IsRankedPods, IsRankedTeams, Run-IsRanked}

abbrev cost : Text → Text → ℕ → PodCost Pico
cost name team cycles =
    cost_of (default_prices (codes "aws") (codes "r") (pos 0)) (pos 9)
      (record {
        pod_name = name;
        namespace = codes "shop";
        node_name = codes "n1";
        team_label = team;
        service_label = name;
        feature_label = [];
        cost_center = [];
        environment = codes "production";
        cgroup_id = 1;
        container_id = codes "ab";
      })
      (record (fresh_metrics 1) { cpu_cycles = cycles })

abbrev pub costs : List (PodCost Pico)
costs =
    cost (codes "web") (codes "front") (3 * 10 ^ 9)
    ∷ cost (codes "db") (codes "data") (9 * 10 ^ 9)
    ∷ cost (codes "cdn") (codes "front") (5 * 10 ^ 9)
    ∷ []

abbrev snap : Snapshot Pico
snap = build_snapshot (pos 9) costs

by_team_iff_example :
    ((row : TeamEntry Pico)
      → Memᴰ row (by_team backwards insertion snap)
      → (team : Text) × (pods_of team costs ≢ []) × (row ≡ row_of team (pods_of team costs)))
    × ((team : Text)
        → pods_of team costs ≢ []
        → Memᴰ (row_of team (pods_of team costs)) (by_team backwards insertion snap))
by_team_iff_example = by_team_iff backwards insertion (pos 9) costs

abbrev scan : Text → Pico
scan hours = pos 0

abbrev blank : Response
blank = record { headers = []; status = 0; body = [] }

-- A preflight request is answered without the handler.
preflight : (cors (λ w. record w { body = codes "no" }) (codes "OPTIONS") blank).body ≡ []
unfolding cors
preflight = refl

Run-IsRanked_example :
    All
      (λ s.
        IsRankedPods Pico-IsOrdered Pico-IsRounded insertion [] (codes "data") s
        × IsRankedTeams Pico-IsOrdered Pico-IsRounded backwards insertion s)
      (taken ∷ [])
Run-IsRanked_example =
    Run-IsRanked Pico-IsOrdered Pico-IsRounded backwards insertion insertion [] (codes "data")
      Run-after
