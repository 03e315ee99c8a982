-- ===== src/Local/Dashboard/Screens.antt =====
-- The dashboard against the pods that the store shows.
use mathlib.Core.List.{Permᴰ, Memᴰ}
use mathlib.Core.List.Permᴰ as PermD
use mathlib.Core.Path.{subst, fun_ext}
use koprobe.Prelude.{
  ◌≡◌, refl, sym, ◌⊎◌, inl, inr, Bool, true, false, text_eq, Text, ℕ, take, map, All, All-imp,
  All-map, All-select, none, some, List, [], ◌∷◌,
}
use koprobe.Float.{Double, nought, ◌≺◌}
use koprobe.Float.Laws.{IsOrdered, IsRounded, IsNonneg}
use koprobe.Float.Nonneg.{sum-IsNonneg}
use koprobe.Float.Sums.{sum}
use koprobe.GoMap.{keys, lookup_or}
use koprobe.GoMap.Ranging.{Order}
use koprobe.GoMap.Members.{Memᴰ-perm}
use koprobe.Sorting.{Sorter, IsSorted, greater, sort-greater-IsSorted}
use koprobe.Window.{suffix}
use koprobe.Local.{PodMetrics, Store, team_totals}
use koprobe.Local.Totals.{pods_of}
use koprobe.Local.Pages.{pct}
use koprobe.Local.Dashboard.{Screen, team_line, pod_line, print_dashboard}
use koprobe.Local.Dashboard.Rows.{each_line-cases, cost_of-eq-sum, line_of, has_bar, team_line-eq}

All-of : {A : Type 0} (P : A → Type 0) (xs : List A) → ((x : A) → P x) → All P xs
All-of P [] h = tt
All-of P (x ∷ xs) h = (h x, All-of P xs h)

IsSorted-map :
    {A B : Type 0} (less : B → B → Bool) (f : A → B) (xs : List A)
    → IsSorted (λ a b. less (f a) (f b)) xs
    → IsSorted less (map f xs)
IsSorted-map less f [] h = tt
IsSorted-map less f (x ∷ xs) h =
    (All-map (λ y. less y (f x) ≡ false) f xs h.0, IsSorted-map less f xs h.1)

module _ {F : Type 0} ⦃d : Double F⦄ (ordered : IsOrdered F) (rounded : IsRounded F) where
  -- What the screen shows of a store: a line for each team, by falling cost and made of the team's own
  -- pods, the six costliest pods, and the last three alerts.
  pub record IsScreenOf (st : Store F) (tick : ℕ) (s : Screen F) : Type 0 where
    pub names : List Text
    pub names_perm : Permᴰ (keys (team_totals st.latest)) names
    pub bars_fit : All (λ team. has_bar st.latest team ≡ true) names
    pub teams_eq : s.teams ≡ map (line_of st.latest) names
    pub teams_ranked : IsSorted (greater ordered (λ l. l.cost)) s.teams
    pub pods : List (PodMetrics F)
    pub pods_perm : Permᴰ st.latest pods
    pub pods_ranked : IsSorted (greater ordered (λ m. m.total_cost)) pods
    pub pods_eq : s.pods ≡ map (pod_line (sum (λ m. m.total_cost) st.latest)) (take 6 pods)
    pub alerts_eq : s.alerts ≡ suffix 3 st.alerts
    pub totals_eq :
        (s.total ≡ sum (λ m. m.total_cost) st.latest)
        × (s.wasted ≡ sum (λ m. m.wasted_dollars) st.latest)
        × (s.wasted_pct ≡ pct s.wasted s.total)
    pub tick_eq : s.tick ≡ tick

  abbrev cost_of : List (PodMetrics F) → Text → F
  cost_of latest team = lookup_or nought team (team_totals latest)

  cost_of-IsNonneg :
      (latest : List (PodMetrics F)) (team : Text)
      → All (λ m. IsNonneg m.total_cost) latest
      → IsNonneg (cost_of latest team)
  cost_of-IsNonneg latest team h =
      subst (λ (t : F). IsNonneg t) (sym (cost_of-eq-sum latest team))
        (sum-IsNonneg rounded (λ m. m.total_cost) (pods_of team latest)
          (All-select (λ m. IsNonneg m.total_cost) _ latest h))

  lines_ranked :
      (latest : List (PodMetrics F)) (names : List Text)
      → IsSorted (λ a b. cost_of latest b ≺ cost_of latest a) names
      → IsSorted (greater ordered (λ l. l.cost)) (map (line_of latest) names)
  lines_ranked latest names h =
      IsSorted-map (greater ordered (λ l. l.cost)) (line_of latest) names (
        subst (λ (c : Text → F). IsSorted (λ a b. c b ≺ c a) names)
          (fun_ext (cost_of-eq-sum latest)) h)

  names_ranked :
      (sorter : Sorter Text) (latest : List (PodMetrics F)) (names : List Text)
      → All (λ m. IsNonneg m.total_cost) latest
      → IsSorted
          (λ a b. cost_of latest b ≺ cost_of latest a)
          (sorter.sort (λ a b. cost_of latest b ≺ cost_of latest a) names)
  names_ranked sorter latest names h = sort-greater-IsSorted ordered (cost_of latest) sorter names (
      All-of _ names
        (λ t. rounded.number_of_le nought (cost_of latest t) (cost_of-IsNonneg latest t h)))

  -- The dashboard of a store whose costs are at least 0 is either a full screen, which shows every
  -- team once, by falling cost, with a bar of twenty cells and the sums over its own pods, then the six
  -- costliest pods, and the last three alerts; or the program panics, and then some team's bar would
  -- have had fewer than none or more than twenty full cells. This in whatever order the map is ranged
  -- over, and where numbers are ordered and round as `IsOrdered` and `IsRounded` say.
  pub print_dashboard-cases :
      (order : Order (Text × F)) (team_sorter : Sorter Text) (pod_sorter : Sorter (PodMetrics F))
      (st : Store F) (tick : ℕ)
      → All (λ m. IsNonneg m.total_cost) st.latest
      → ((s : Screen F) × (print_dashboard order team_sorter pod_sorter st tick ≡ some s)
          × IsScreenOf st tick s)
        ⊎ ((team : Text) × Memᴰ team (keys (team_totals st.latest))
            × (has_bar st.latest team ≡ false)
            × (print_dashboard order team_sorter pod_sorter st tick ≡ none))
  unfolding print_dashboard
  print_dashboard-cases order team_sorter pod_sorter st tick h =
      let latest = st.latest in
      let total = sum (λ m. m.total_cost) latest in
      let less : Text → Text → Bool = λ a b. cost_of latest b ≺ cost_of latest a in
      let ranged = keys (order.visit (team_totals latest)) in
      let names = team_sorter.sort less ranged in
      let perm : Permᴰ (keys (team_totals latest)) names =
        Permᴰ.trans (PermD.map (λ e. e.0) (order.visit-perm (team_totals latest)))
          (team_sorter.sort-perm less ranged) in
      elim (each_line-cases (team_line latest (team_totals latest) total) (has_bar latest)
        (line_of latest) (team_line-eq latest) names) [
          | inl (fit, lines) ↦ inl (
            _,
            rw (print_dashboard, lines) refl,
            record {
              names = names;
              names_perm = perm;
              bars_fit = fit;
              teams_eq = refl;
              teams_ranked = lines_ranked latest names (names_ranked team_sorter latest ranged h);
              pods = pod_sorter.sort (λ a b. b.total_cost ≺ a.total_cost) latest;
              pods_perm = pod_sorter.sort-perm (λ a b. b.total_cost ≺ a.total_cost) latest;
              pods_ranked =
                  sort-greater-IsSorted ordered (λ m. m.total_cost) pod_sorter latest
                    (All-imp (λ m. IsNonneg m.total_cost) _ latest
                      (λ m k. rounded.number_of_le nought m.total_cost k) h);
              pods_eq = refl;
              alerts_eq = refl;
              totals_eq = (refl, refl, refl);
              tick_eq = refl;
            },
          )
          | inr (team, mem, bad, lines) ↦
              inr (team, Memᴰ-perm (PermD.symm perm) mem, bad, rw (print_dashboard, lines) refl)
        ]
