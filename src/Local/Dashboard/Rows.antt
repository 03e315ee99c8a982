-- ===== src/Local/Dashboard/Rows.antt =====
-- The lines of the dashboard.
use mathlib.Core.List.{Memᴰ}
use koprobe.Prelude.{
  ◌≡◌, refl, ap, ◌∙◌, ◌⊎◌, inl, inr, Bool-cases, Bool, true, false, text_eq, Text, pos_part, map,
  All, Option, none, some, List, [], ◌∷◌, if◌then◌else◌,
}
use koprobe.Float.{Double, nought}
use koprobe.Float.Sums.{sum, sum_of-eq-sum}
use koprobe.GoMap.{lookup_or}
use koprobe.Slack.Bars.{cells}
use koprobe.Local.{PodMetrics, team_totals}
use koprobe.Local.Totals.{pods_of, lookup-team_totals}
use koprobe.Local.Dashboard.{TeamLine, each_line, bar_len, team_line}
use koprobe.Local.Dashboard.Bars.{fits, bar_of-eq-cells}

pub each_line-cases :
    {A B : Type 0} (f : A → Option B) (ok : A → Bool) (g : A → B)
    → ((x : A) → f x ≡ (if ok x then some (g x) else none))
    → (xs : List A)
    → ((All (λ x. ok x ≡ true) xs) × (each_line f xs ≡ some (map g xs)))
      ⊎ ((x : A) × Memᴰ x xs × (ok x ≡ false) × (each_line f xs ≡ none))
unfolding each_line
each_line-cases f ok g h [] = inl (tt, refl)
each_line-cases f ok g h (x ∷ xs) = elim (Bool-cases (ok x)) [
  | inr e ↦ inr (x, Memᴰ.head refl, e, rw (h x, e) refl)
  | inl e ↦ elim (each_line-cases f ok g h xs) [
    | inl (all, eq) ↦ inl ((e, all), rw (h x, e, eq) refl)
    | inr (y, mem, bad, eq) ↦ inr (y, Memᴰ.tail mem, bad, rw (h x, e, eq) refl)
  ]
]

module _ {F : Type 0} ⦃d : Double F⦄ where
  pub cost_of-eq-sum :
      (latest : List (PodMetrics F)) (team : Text)
      → lookup_or nought team (team_totals latest) ≡ sum (λ m. m.total_cost) (pods_of team latest)
  cost_of-eq-sum latest team =
      ap (λ (o : Option F). elim o [ none ↦ nought | some v ↦ v ]) (lookup-team_totals latest team)
      ∙ sum_of-eq-sum (λ m. m.total_cost) (pods_of team latest)

  -- the line of a team whose bar has from none to twenty cells, by the pods of the team alone
  abbrev pub line_of : List (PodMetrics F) → Text → TeamLine F
  line_of latest team =
      let pods = pods_of team latest in
      let cost = sum (λ m. m.total_cost) pods in
      record {
        team = team;
        bar = cells (pos_part (bar_len cost (sum (λ m. m.total_cost) latest))) 20;
        cost = cost;
        cpu = sum (λ m. m.cpu_cost) pods;
        network = sum (λ m. m.network_cost) pods;
        waste = sum (λ m. m.wasted_dollars) pods;
      }

  abbrev pub has_bar : List (PodMetrics F) → Text → Bool
  has_bar latest team =
      fits
        (bar_len (sum (λ m. m.total_cost) (pods_of team latest)) (sum (λ m. m.total_cost) latest))

  pub team_line-eq :
      (latest : List (PodMetrics F)) (team : Text)
      → team_line latest (team_totals latest) (sum (λ m. m.total_cost) latest) team
        ≡ (if has_bar latest team then some (line_of latest team) else none)
  unfolding team_line bar_len
  team_line-eq latest team =
      let total = sum (λ m. m.total_cost) latest in
      let cost = sum (λ m. m.total_cost) (pods_of team latest) in
      let bar = bar_of-eq-cells (bar_len cost total) in
      elim (Bool-cases (has_bar latest team)) [
        | inl e ↦ rw (team_line, cost_of-eq-sum latest team, bar, e) refl
        | inr e ↦ rw (team_line, cost_of-eq-sum latest team, bar, e) refl
      ]
