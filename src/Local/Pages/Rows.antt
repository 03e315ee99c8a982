-- ===== src/Local/Pages/Rows.antt =====
-- The rows by team against the metrics of the store.
use mathlib.Core.List.{Memᴰ}
use mathlib.Core.List.Memᴰ as MemD
use mathlib.Core.List.Permᴰ as PermD
use koprobe.Prelude.{
  ◌+◌, Bool, ◌≡◌, refl, sym, ap, ◌∙◌, text_eq, Text, foldl, length, Option, none, List, [], ◌∷◌,
  some, map, arith,
}
use koprobe.Float.{Double, ◌⊕◌, ◌≺◌, nought}
use koprobe.Float.Sums.{sum}
use koprobe.GoMap.{lookup, values, IsMap}
use koprobe.GoMap.Groups.{grown, lookup-group, group-IsMap, grown-some}
use koprobe.GoMap.Ranging.{Order}
use koprobe.GoMap.Members.{Memᴰ-perm, visit_iff}
use koprobe.Sorting.{Sorter}
use koprobe.Local.{PodMetrics, Store}
use koprobe.Local.Totals.{pods_of}
use koprobe.Local.Pages.{TeamRow, empty_row, add_row, team_rows, with_pct, by_team}

module _ {F : Type 0} ⦃d : Double F⦄ where
  abbrev onto : (PodMetrics F → F) → F → List (PodMetrics F) → F
  onto part start ms = foldl (λ acc m. acc ⊕ part m) start ms

  foldl-add_row :
      (ms : List (PodMetrics F)) (r : TeamRow F)
      → foldl (λ w m. add_row m w) r ms ≡ record r {
        total_cost = onto (λ m. m.total_cost) r.total_cost ms;
        cpu_cost = onto (λ m. m.cpu_cost) r.cpu_cost ms;
        memory_cost = onto (λ m. m.memory_cost) r.memory_cost ms;
        network_cost = onto (λ m. m.network_cost) r.network_cost ms;
        disk_cost = onto (λ m. m.disk_cost) r.disk_cost ms;
        wasted_cost = onto (λ m. m.wasted_dollars) r.wasted_cost ms;
        pod_count = r.pod_count + length ms;
      }
  unfolding add_row
  foldl-add_row [] r = ground arith
  foldl-add_row (m ∷ ms) r = ground (arith, foldl-add_row ms (add_row m r))

  -- What a team's row should be, less the percentage, from its pods alone; none without pods.
  unfoldable pub row_of : Text → List (PodMetrics F) → Option (TeamRow F)
  row_of team [] = none
  row_of team (m ∷ ms) =
      let pods = m ∷ ms in
      some (record {
        team = team;
        total_cost = sum (λ m. m.total_cost) pods;
        cpu_cost = sum (λ m. m.cpu_cost) pods;
        memory_cost = sum (λ m. m.memory_cost) pods;
        network_cost = sum (λ m. m.network_cost) pods;
        disk_cost = sum (λ m. m.disk_cost) pods;
        wasted_cost = sum (λ m. m.wasted_dollars) pods;
        waste_pct = nought;
        pod_count = length pods;
      })

  grown-add_row :
      (team : Text) (pods : List (PodMetrics F))
      → grown (λ m. m.team) empty_row add_row team none pods ≡ row_of team pods
  unfolding grown row_of add_row sum
  grown-add_row team [] = refl
  grown-add_row team (m ∷ ms) =
      grown-some (λ m. m.team) empty_row add_row team (add_row m (empty_row team)) ms
      ∙ ap some (foldl-add_row ms (add_row m (empty_row team)))
      ∙ ground arith

  lookup-team_rows :
      (team : Text) (metrics : List (PodMetrics F))
      → lookup team (team_rows metrics) ≡ row_of team (pods_of team metrics)
  unfolding team_rows lookup
  lookup-team_rows team metrics =
      lookup-group (λ m. m.team) empty_row add_row team metrics []
      ∙ grown-add_row team (pods_of team metrics)

  team_rows-IsMap : (metrics : List (PodMetrics F)) → IsMap (team_rows metrics)
  unfolding team_rows
  team_rows-IsMap metrics = group-IsMap (λ m. m.team) empty_row add_row metrics [] tt

  -- The rows by team, whatever the order of the loop and of equal rows: every row is what the pods of
  -- one team add up to, with its percentage of waste, and every team with pods has such a row.
  pub by_team_rows_iff :
      (order : Order (Text × TeamRow F)) (sorter : Sorter (TeamRow F)) (st : Store F)
      → ((row : TeamRow F)
          → Memᴰ row (by_team order sorter st)
          → (team : Text) × (r : TeamRow F) × (row_of team (pods_of team st.latest) ≡ some r)
            × (row ≡ with_pct r))
        × ((team : Text) (r : TeamRow F)
            → row_of team (pods_of team st.latest) ≡ some r
            → Memᴰ (with_pct r) (by_team order sorter st))
  unfolding by_team
  by_team_rows_iff order sorter st =
      let made = team_rows st.latest in
      let less : TeamRow F → TeamRow F → Bool = λ a b. b.total_cost ≺ a.total_cost in
      let visited = order.visit made in
      let rows = map with_pct (values visited) in
      let met = visit_iff order made (team_rows-IsMap st.latest) in
      (
        λ row m.
            let (r, listed, same) =
              MemD.of_map with_pct (values visited)
                (Memᴰ-perm (PermD.symm (sorter.sort-perm less rows)) m) in
            let (entry, found, value) = MemD.of_map (λ e. e.1) visited listed in
            (
              entry.0,
              r,
              sym (lookup-team_rows entry.0 st.latest)
                  ∙ (met entry.0 entry.1).0 found
                  ∙ ap some value,
              sym same,
            ),
        λ team r e. Memᴰ-perm (sorter.sort-perm less rows) (
            MemD.map with_pct
              (MemD.map (λ e. e.1) ((met team r).1 (lookup-team_rows team st.latest ∙ e)))),
      )
