-- ===== src/Api/Ranked.antt =====
-- The order of the rows that the handlers answer, in every run of the daemon.
use koprobe.Prelude.{sym, text_eq, Text, All, All-imp, All-select, All-map, map, List}
use mathlib.Core.Path.{subst}
use koprobe.Float.{Double, nought}
use koprobe.Float.Laws.{IsOrdered, IsRounded, IsNonneg}
use koprobe.GoMap.{values}
use koprobe.GoMap.Ranging.{Order}
use koprobe.GoMap.Values.{All-perm, All-values}
use koprobe.Sorting.{Sorter, IsSorted, IsValid, greater, is_number, sort-greater-IsSorted}
use koprobe.Aggregator.{PodCost, TeamCost, Snapshot, Aggregator}
use koprobe.Aggregator.Runs.{Run}
use koprobe.Aggregator.Nonneg.{IsNonnegCost}
use koprobe.Aggregator.Signs.{IsNonnegSnapshot, Run-IsNonnegSnapshot}
use koprobe.Api.{TeamEntry, team_entry, by_team, filter_pods, by_pod}
use koprobe.Api.Pages.{wanted, filter_pods-eq-select}

module _ {F : Type 0} ⦃d : Double F⦄ (ordered : IsOrdered F) (rounded : IsRounded F) where
  -- The answer by pod is sorted by the total cost, the greatest first.
  abbrev pub IsRankedPods : Sorter (PodCost F) → Text → Text → Snapshot F → Type 0
  IsRankedPods sorter namespace team s =
      IsSorted (greater ordered (λ c. c.total_cost)) (by_pod sorter namespace team s)

  -- So is the answer by team.
  abbrev pub IsRankedTeams : Order (Text × TeamCost F) → Sorter (TeamEntry F) → Snapshot F → Type 0
  IsRankedTeams order sorter s =
      IsSorted (greater ordered (λ e. e.total_cost)) (by_team order sorter s)

  by_pod-IsRankedPods :
      (sorter : Sorter (PodCost F)) (namespace team : Text) (s : Snapshot F)
      → IsNonnegSnapshot s
      → IsRankedPods sorter namespace team s
  unfolding by_pod
  by_pod-IsRankedPods sorter namespace team s h =
      sort-greater-IsSorted ordered (λ c. c.total_cost) sorter
        (filter_pods namespace team s.pod_costs)
        (subst (All (IsValid (is_number ordered (λ c. c.total_cost))))
          (sym (filter_pods-eq-select namespace team s.pod_costs))
          (All-select _ (wanted namespace team) s.pod_costs (
            All-imp IsNonnegCost _ s.pod_costs
              (λ c k. rounded.number_of_le nought c.total_cost k.total) h.pods)))

  by_team-IsRankedTeams :
      (order : Order (Text × TeamCost F)) (sorter : Sorter (TeamEntry F)) (s : Snapshot F)
      → IsNonnegSnapshot s
      → IsRankedTeams order sorter s
  unfolding by_team team_entry
  by_team-IsRankedTeams order sorter s h =
      let visited = All-perm _ (order.visit-perm s.team_costs) h.teams in
      sort-greater-IsSorted ordered (λ e. e.total_cost) sorter
        (map team_entry (values (order.visit s.team_costs)))
        (All-map _ team_entry _ (
          All-imp (λ tc. IsNonneg tc.total_cost) _ _
            (λ tc k. rounded.number_of_le nought tc.total_cost k) (All-values _ _ visited)))

  -- In every run of the daemon and for every snapshot of it, the answers by pod, under any filter, and
  -- by team list their rows by falling cost, whatever `sort.Slice` does with rows of equal cost: this
  -- where numbers are ordered and round as `IsOrdered` and `IsRounded` say.
  pub Run-IsRanked :
      {snaps : List (Snapshot F)} {a : Aggregator F} (order : Order (Text × TeamCost F))
      (teams : Sorter (TeamEntry F)) (pods : Sorter (PodCost F)) (namespace team : Text)
      → Run snaps a
      → All (λ s. IsRankedPods pods namespace team s × IsRankedTeams order teams s) snaps
  Run-IsRanked {snaps} order teams pods namespace team r =
      All-imp IsNonnegSnapshot _ snaps
        (λ s h.
          (by_pod-IsRankedPods pods namespace team s h, by_team-IsRankedTeams order teams s h))
        (Run-IsNonnegSnapshot rounded r)
