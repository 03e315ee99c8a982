-- ===== src/Api/Pages.antt =====
-- The handlers by pod, by namespace, for waste and for the history.
use mathlib.Core.List.{Permᴰ}
use mathlib.Core.Path.{subst}
use koprobe.Prelude.{
  Bool, ◌&&◌, ◌||◌, ◌==◌, ◌≡◌, refl, ap, ◌∙◌, text_eq, Text, ℤ, pos, ◌*◌, ◌^◌, ◌-ℤ◌, ◌+ℤ◌, int64,
  ltb_ℤ, select, map, List, [], ◌∷◌, arith,
}
use koprobe.Float.{Double, ◌≺◌, nought}
use koprobe.Float.Laws.{IsOrdered}
use koprobe.Float.Sums.{sum, sum_of, with_key, lookup-tally}
use koprobe.GoMap.{lookup}
use koprobe.GoMap.Ranging.{Order}
use koprobe.Window.{suffix}
use koprobe.Sorting.{Sorter}
use koprobe.Aggregator.{PodCost, Snapshot, Aggregator, history_since, build_snapshot}
use koprobe.Aggregator.Runs.{Run}
use koprobe.Aggregator.Teams.{build_snapshot-Summarises}
use koprobe.Aggregator.History.{history-eq-suffix}
use koprobe.Aggregator.Waste.{waste_report-eq-nil}
use koprobe.Api.{by_namespace, filter_pods, by_pod, waste, duration, point, history}

module _ {F : Type 0} ⦃d : Double F⦄ where
  -- what the query asks for
  abbrev pub wanted : Text → Text → PodCost F → Bool
  wanted namespace team p =
      (namespace == [] || p.namespace == namespace) && (team == [] || p.team == team)

  pub filter_pods-eq-select :
      (namespace team : Text) (pods : List (PodCost F))
      → filter_pods namespace team pods ≡ select (wanted namespace team) pods
  unfolding filter_pods
  filter_pods-eq-select namespace team [] = refl
  filter_pods-eq-select namespace team (p ∷ pods) =
      ground (arith, filter_pods-eq-select namespace team pods)

  -- The pods answered are a rearrangement of the snapshot's pods that have the namespace asked for,
  -- if one is, and the team asked for, if one is, each as often as in the snapshot.
  pub by_pod-perm :
      (sorter : Sorter (PodCost F)) (namespace team : Text) (snap : Snapshot F)
      → Permᴰ (select (wanted namespace team) snap.pod_costs) (by_pod sorter namespace team snap)
  unfolding by_pod
  by_pod-perm sorter namespace team snap =
      subst (λ pods. Permᴰ pods (by_pod sorter namespace team snap))
        (filter_pods-eq-select namespace team snap.pod_costs)
        (sorter.sort-perm (λ a b. b.total_cost ≺ a.total_cost)
          (filter_pods namespace team snap.pod_costs))

  -- In the answer for a snapshot of given pods, a namespace has the sum of the costs of its pods, in
  -- the order of the pods, and a namespace without pods has no entry.
  pub lookup-by_namespace :
      (now : ℤ) (costs : List (PodCost F)) (namespace : Text)
      → lookup namespace (by_namespace (build_snapshot now costs))
        ≡ sum_of (λ p. p.total_cost) (with_key (λ p. p.namespace) namespace costs)
  unfolding by_namespace
  lookup-by_namespace now costs namespace =
      let pods = (build_snapshot-Summarises now costs).pods_eq in
      lookup-tally (λ p. p.namespace) (λ p. p.total_cost) namespace
        (build_snapshot now costs).pod_costs
      ∙ ap (λ l. sum_of (λ p. p.total_cost) (with_key (λ p. p.namespace) namespace l)) pods

  -- Over every run of the daemon, the history answered without a number of hours is made of those of
  -- the last 5760 snapshots that are younger than 24 hours, in their order, each with its total.
  pub history-eq-map :
      {snaps : List (Snapshot F)} {a : Aggregator F} (scan : Text → F) (now : ℤ)
      → Run snaps a
      → history scan [] now a
        ≡ map point (
            select
              (λ s. ltb_ℤ (now +ℤ int64 (pos 0 -ℤ pos (24 * 3600 * 10 ^ 9))) s.timestamp)
              (suffix 5760 snaps))
  unfolding history duration history_since
  history-eq-map scan now r =
      ap
        (λ l.
          map point
            (select (λ s. ltb_ℤ (now +ℤ int64 (pos 0 -ℤ pos (24 * 3600 * 10 ^ 9))) s.timestamp) l))
        (history-eq-suffix r)

  -- Over every run of the daemon, and where numbers are ordered, the answer about waste is empty and
  -- its total is 0.
  pub waste-eq-nought :
      {snaps : List (Snapshot F)} {a : Aggregator F} (laws : IsOrdered F)
      (order : Order (Text × PodCost F))
      → Run snaps a
      → waste order a ≡ ([], nought)
  unfolding waste sum
  waste-eq-nought laws order r =
      ap (λ l. (l, sum (λ p. p.wasted_dollars) l)) (waste_report-eq-nil laws order r).0
