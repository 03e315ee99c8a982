-- ===== src/Exports.antt =====
-- Two exporters of internal/exporter/ on one snapshot: api.go and prometheus.go.
mod Tests
use mathlib.Core.List.{Permᴰ, Memᴰ}
use mathlib.Core.List.Permᴰ as PermD
use mathlib.Core.Option.{some_inj}
use mathlib.Core.Path.{subst, ap₂}
use koprobe.Prelude.{
  ◌≡◌, refl, sym, ap, ◌∙◌, text_eq, Text, codes, ℤ, All, Bool, select, Option, none, some, map,
  List, [], ◌∷◌, ◌++◌,
}
use koprobe.Float.{Double, ◌≺◌}
use koprobe.GoMap.{Map, lookup, values, IsMap}
use koprobe.GoMap.Ranging.{Order, forwards}
use koprobe.GoMap.Members.{All-mem, visit_iff}
use koprobe.Sorting.{Sorter}
use koprobe.Aggregator.{PodCost, TeamCost, Snapshot, build_snapshot}
use koprobe.Aggregator.Teams.{entry_of, pods_of, build_snapshot-Summarises, build_snapshot-IsMap}
use koprobe.Api.{TeamEntry, Summary, summary, team_entry, by_team, by_pod}
use koprobe.Prometheus.{Sample, sample, pod_labels, scrape}
use koprobe.Prometheus.Totals.{
  named, pod_sample, team_sample, named-scrape_pods, named-scrape_teams, named-scrape_cluster,
}
use koprobe.Api.Pages.{wanted, by_pod-perm}

module _ {F : Type 0} ⦃d : Double F⦄ where
  -- the sample of the cost of a row of the answer by team
  abbrev pub row_sample : TeamEntry F → Sample F
  row_sample r =
      sample ((codes "team", r.team) ∷ []) (codes "koprobe_team_cost_total", r.total_cost)

  select_all : (xs : List (PodCost F)) → select (wanted [] []) xs ≡ xs
  select_all [] = refl
  select_all (x ∷ xs) = ap (◌∷◌ x) (select_all xs)

  entry_of-team :
      (team : Text) (pods : List (PodCost F)) (tc : TeamCost F)
      → entry_of team pods ≡ some tc
      → tc.team ≡ team
  unfolding entry_of
  entry_of-team team [] tc h = absurd (cc h)
  entry_of-team team (p ∷ ps) tc h = sym (ap (λ t. t.team) (some_inj.0 h))

  keyed :
      (now : ℤ) (costs : List (PodCost F)) (order : Order (Text × TeamCost F))
      → All
          (λ x. row_sample (team_entry x.1) ≡ team_sample x)
          (order.visit (build_snapshot now costs).team_costs)
  unfolding team_entry
  keyed now costs order = All-mem _ _ λ x m.
      let snap = build_snapshot now costs in
      let found = (visit_iff order snap.team_costs (build_snapshot-IsMap now costs) x.0 x.1).0 m in
      let made = sym ((build_snapshot-Summarises now costs).teams_eq x.0) ∙ found in
      ap
        (λ (team : Text).
          sample ((codes "team", team) ∷ []) (codes "koprobe_team_cost_total", x.1.total_cost))
        (entry_of-team x.0 (pods_of x.0 costs) x.1 made)

  map_rows :
      (xs : List (Text × TeamCost F))
      → All (λ x. row_sample (team_entry x.1) ≡ team_sample x) xs
      → map row_sample (map team_entry (values xs)) ≡ map team_sample xs
  map_rows [] h = refl
  map_rows (x ∷ xs) h = ap₂ (λ a b. a ∷ b) h.0 (map_rows xs h.1)

  -- The exporters agree on a snapshot of given pods, in whatever orders each of them ranges over the
  -- teams and sorts: the samples of the teams' costs are those of the rows of the answer by team, the
  -- samples of the pods' costs are those of the pods of the answer by pod without a filter, each up to
  -- order and as often, and the one sample of the cluster's cost is the total of the summary.
  pub scrape-by_team-perm :
      (scraping asking : Order (Text × TeamCost F)) (teams : Sorter (TeamEntry F))
      (pods : Sorter (PodCost F)) (now : ℤ) (costs : List (PodCost F))
      → Permᴰ
          (named (codes "koprobe_team_cost_total") (scrape scraping (build_snapshot now costs)))
          (map row_sample (by_team asking teams (build_snapshot now costs)))
        × Permᴰ
            (named (codes "koprobe_pod_cost_total") (scrape scraping (build_snapshot now costs)))
            (map pod_sample (by_pod pods [] [] (build_snapshot now costs)))
        × (named (codes "koprobe_cluster_cost_total") (scrape scraping (build_snapshot now costs))
            ≡ sample [] (
              codes "koprobe_cluster_cost_total",
              (summary (build_snapshot now costs)).total_cost,
            )
              ∷ [])
  unfolding summary by_team
  scrape-by_team-perm scraping asking teams pods now costs =
      let snap = build_snapshot now costs in
      let rows = map team_entry (values (asking.visit snap.team_costs)) in
      let less : TeamEntry F → TeamEntry F → Bool = λ a b. b.total_cost ≺ a.total_cost in
      let same_teams : Permᴰ (scraping.visit snap.team_costs) (asking.visit snap.team_costs) =
        Permᴰ.trans (PermD.symm (scraping.visit-perm snap.team_costs))
          (asking.visit-perm snap.team_costs) in
      (
        subst (λ l. Permᴰ l (map row_sample (teams.sort less rows)))
            (sym (named-scrape_teams scraping snap))
            (Permᴰ.trans (PermD.map team_sample same_teams) (
              subst (λ l. Permᴰ l (map row_sample (teams.sort less rows)))
                (map_rows (asking.visit snap.team_costs) (keyed now costs asking))
                (PermD.map row_sample (teams.sort-perm less rows)))),
        subst (λ l. Permᴰ l (map pod_sample (by_pod pods [] [] snap)))
            (sym (named-scrape_pods scraping snap))
            (PermD.map pod_sample (
              subst (λ l. Permᴰ l (by_pod pods [] [] snap)) (select_all snap.pod_costs)
                (by_pod-perm pods [] [] snap))),
        named-scrape_cluster scraping snap,
      )
