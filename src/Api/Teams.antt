-- ===== src/Api/Teams.antt =====
-- `handleByTeam` against the pods of the snapshot.
use mathlib.Core.List.{Memᴰ}
use mathlib.Core.List.Memᴰ as MemD
use mathlib.Core.List.Permᴰ as PermD
use mathlib.Core.Option.{some_inj}
use mathlib.Core.Path.{subst}
use koprobe.Prelude.{
  Bool, ◌≡◌, ◌≢◌, refl, sym, ap, ◌∙◌, text_eq, Text, ℤ, List, [], ◌∷◌, some, map, length, arith,
}
use koprobe.Float.Sums.{sum}
use koprobe.Float.{Double, ◌≺◌}
use koprobe.GoMap.{values}
use koprobe.GoMap.Ranging.{Order}
use koprobe.GoMap.Members.{Memᴰ-perm, visit_iff}
use koprobe.Sorting.{Sorter}
use koprobe.Aggregator.{PodCost, TeamCost, build_snapshot}
use koprobe.Aggregator.Teams.{pods_of, entry_of, build_snapshot-Summarises, build_snapshot-IsMap}
use koprobe.Api.{TeamEntry, team_entry, by_team}

module _ {F : Type 0} ⦃d : Double F⦄ where
  -- the row of a team, from its pods in the order of the snapshot
  abbrev pub row_of : Text → List (PodCost F) → TeamEntry F
  row_of team own = record {
    team = team;
    total_cost = sum (λ c. c.total_cost) own;
    wasted_cost = sum (λ c. c.wasted_dollars) own;
    pod_count = length own;
    cpu_cost = sum (λ c. c.cpu_cost) own;
    mem_cost = sum (λ c. c.memory_cost) own;
    net_cost = sum (λ c. c.network_cost) own;
    disk_cost = sum (λ c. c.disk_cost) own;
  }

  row_of_entry :
      (team : Text) (own : List (PodCost F)) (tc : TeamCost F)
      → entry_of team own ≡ some tc
      → (own ≢ []) × (team_entry tc ≡ row_of team own)
  unfolding entry_of team_entry
  row_of_entry team [] tc e = absurd (ground (arith, e))
  row_of_entry team (c ∷ cs) tc e = (λ h. ground (arith, h), sym (ap team_entry (some_inj.0 e)))

  entry_of-some :
      (team : Text) (own : List (PodCost F))
      → own ≢ []
      → (tc : TeamCost F) × (entry_of team own ≡ some tc)
  unfolding entry_of
  entry_of-some team [] h = absurd (h refl)
  entry_of-some team (c ∷ cs) h = (_, refl)

  entry_rows :
      (order : Order (Text × TeamCost F)) (sorter : Sorter (TeamEntry F)) (now : ℤ)
      (costs : List (PodCost F))
      → ((row : TeamEntry F)
          → Memᴰ row (by_team order sorter (build_snapshot now costs))
          → (team : Text) × (tc : TeamCost F) × (entry_of team (pods_of team costs) ≡ some tc)
            × (row ≡ team_entry tc))
        × ((team : Text) (tc : TeamCost F)
            → entry_of team (pods_of team costs) ≡ some tc
            → Memᴰ (team_entry tc) (by_team order sorter (build_snapshot now costs)))
  unfolding by_team
  entry_rows order sorter now costs =
      let snap = build_snapshot now costs in
      let less : TeamEntry F → TeamEntry F → Bool = λ a b. b.total_cost ≺ a.total_cost in
      let visited = order.visit snap.team_costs in
      let rows = map team_entry (values visited) in
      let met = visit_iff order snap.team_costs (build_snapshot-IsMap now costs) in
      let teams = (build_snapshot-Summarises now costs).teams_eq in
      (
        λ row m.
            let (tc, listed, same) =
              MemD.of_map team_entry (values visited)
                (Memᴰ-perm (PermD.symm (sorter.sort-perm less rows)) m) in
            let (entry, found, value) = MemD.of_map (λ e. e.1) visited listed in
            (
              entry.0,
              tc,
              sym (teams entry.0) ∙ (met entry.0 entry.1).0 found ∙ ap some value,
              sym same,
            ),
        λ team tc e.
            Memᴰ-perm (sorter.sort-perm less rows)
              (MemD.map team_entry (MemD.map (λ e. e.1) ((met team tc).1 (teams team ∙ e)))),
      )

  -- The rows for a snapshot of given pods, whatever the order of the loop and of equal rows: every
  -- row is that of a team with pods, with their number, and with the sums of their total costs, of
  -- their waste, and of their costs of CPU, memory, network and disk, each in the order of the
  -- snapshot; and every team with pods has such a row.
  pub by_team_iff :
      (order : Order (Text × TeamCost F)) (sorter : Sorter (TeamEntry F)) (now : ℤ)
      (costs : List (PodCost F))
      → ((row : TeamEntry F)
          → Memᴰ row (by_team order sorter (build_snapshot now costs))
          → (team : Text) × (pods_of team costs ≢ []) × (row ≡ row_of team (pods_of team costs)))
        × ((team : Text)
            → pods_of team costs ≢ []
            → Memᴰ
                (row_of team (pods_of team costs))
                (by_team order sorter (build_snapshot now costs)))
  by_team_iff order sorter now costs =
      let (to, from) = entry_rows order sorter now costs in
      (
        λ row m.
            let (team, tc, e, same) = to row m in
            let (own, built) = row_of_entry team (pods_of team costs) tc e in
            (team, own, same ∙ built),
        λ team own.
            let (tc, e) = entry_of-some team (pods_of team costs) own in
            subst (λ row. Memᴰ row (by_team order sorter (build_snapshot now costs)))
              (row_of_entry team (pods_of team costs) tc e).1 (from team tc e),
      )
