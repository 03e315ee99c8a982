-- ===== src/Local/Totals.antt =====
-- The totals of a history point, and the baselines after an update.
use koprobe.Prelude.{◌≡◌, refl, ap, ◌∙◌, Text, ℤ, List, text_eq}
use koprobe.Float.{Double}
use koprobe.Float.Sums.{sum, sum_of, with_key, lookup-tally, tally-IsMap}
use koprobe.GoMap.{lookup}
use koprobe.GoMap.Ranging.{Order}
use koprobe.Baselines.{renewed, check_all_lem}
use koprobe.Local.{PodMetrics, Store, team_totals, trends, point_of, update}

module _ {F : Type 0} ⦃d : Double F⦄ where
  -- the metrics of a team's pods
  abbrev pub pods_of : Text → List (PodMetrics F) → List (PodMetrics F)
  pods_of = with_key (λ m. m.team)

  pub lookup-team_totals :
      (metrics : List (PodMetrics F)) (team : Text)
      → lookup team (team_totals metrics) ≡ sum_of (λ m. m.total_cost) (pods_of team metrics)
  unfolding team_totals
  lookup-team_totals metrics team = lookup-tally (λ m. m.team) (λ m. m.total_cost) team metrics

  -- An update's point carries its instant and the sum of all costs, and for each team the sum of
  -- the costs of that team's pods, each sum in the order of the metrics; a team without pods has no
  -- entry.
  pub point_of-sum :
      (now : ℤ) (metrics : List (PodMetrics F))
      → ((point_of now metrics).time ≡ now)
        × ((point_of now metrics).total ≡ sum (λ m. m.total_cost) metrics)
        × ((team : Text)
            → lookup team (point_of now metrics).teams
              ≡ sum_of (λ m. m.total_cost) (pods_of team metrics))
  unfolding point_of
  point_of-sum now metrics = (refl, refl, lookup-team_totals metrics)

  -- After an update, whatever the order of its loop, a team's baseline is the sum of its pods' costs
  -- if it had none, the moving average of the old one and that sum if it had one, and what it was if
  -- the team has no pods.
  pub lookup-update :
      (order : Order (Text × F)) (clock : Text → ℤ) (now : ℤ) (metrics : List (PodMetrics F))
      (st : Store F) (team : Text)
      → lookup team (update order clock now metrics st).baselines
        ≡ renewed
            (trends clock)
            (lookup team st.baselines)
            (sum_of (λ m. m.total_cost) (pods_of team metrics))
  unfolding update
  lookup-update order clock now metrics st team =
      let (baselines, _) =
        check_all_lem (trends clock) order (team_totals metrics)
          (record { baselines = st.baselines; raised = st.alerts })
          (unfold team_totals in tally-IsMap (λ m. m.team) (λ m. m.total_cost) metrics) in
      baselines team
      ∙ ap (renewed (trends clock) (lookup team st.baselines)) (lookup-team_totals metrics team)
