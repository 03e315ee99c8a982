-- ===== src/Local/Recent.antt =====
-- What the store holds after any number of updates.
use koprobe.Prelude.{
  ℕ, ◌-◌, ◌≡◌, refl, sym, ap, ◌∙◌, ltb, text_eq, Text, ℤ, length, drop, List, [], ◌∷◌, ◌++◌, arith,
  Bool-cases, inl, inr, length-append, length-drop, drop-append_le, drop-drop,
}
use koprobe.Float.{Double}
use koprobe.Float.Sums.{tally-IsMap}
use koprobe.GoMap.{IsMap}
use koprobe.GoMap.Ranging.{Order}
use koprobe.Window.{trim, suffix, trim-suffix-append}
use koprobe.Baselines.{deserved, check_all_lem}
use koprobe.Local.{
  PodMetrics, HistoryPoint, Alert, Store, cut, new_store, team_totals, trends, point_of, update,
}

module _ {A : Type 0} where
  cut-eq-suffix : (xs : List A) → cut xs ≡ suffix 50 xs
  unfolding cut
  cut-eq-suffix xs = elim (Bool-cases (ltb 50 (length xs))) [
    | inl e ↦ rw e
    | inr e ↦ let all : length xs - 50 ≡ 0 = ground arith in rw (e, all)
  ]

  suffix-append :
      (limit : ℕ) (xs ys : List A) → suffix limit (suffix limit xs ++ ys) ≡ suffix limit (xs ++ ys)
  suffix-append limit xs ys =
      let k = length xs - limit in
      let shift : suffix limit xs ++ ys ≡ drop k (xs ++ ys) =
        sym (drop-append_le k xs ys (omega arith)) in
      let size = length-append xs ys in
      let rest = length-drop k (xs ++ ys) in
      ap (suffix limit) shift
      ∙ drop-drop (length (drop k (xs ++ ys)) - limit) k (xs ++ ys)
      ∙ ap (λ j. drop j (xs ++ ys)) (omega (arith, size, rest))

module _ {F : Type 0} ⦃d : Double F⦄ where
  -- The stores that a run of `Update` reaches, with every point and every alert that it made.
  pub data Run : List (HistoryPoint F) → List (Alert F) → Store F → Type 0 where
    started : (now : ℤ) → Run [] [] (new_store now)
    updated :
        {points : List (HistoryPoint F)} {alerts : List (Alert F)} {st : Store F}
        (order : Order (Text × F)) (clock : Text → ℤ) (now : ℤ) (metrics : List (PodMetrics F))
        → Run points alerts st
        → Run
            (points ++ (point_of now metrics ∷ []))
            (alerts ++ deserved (trends clock) st.baselines (order.visit (team_totals metrics)))
            (update order clock now metrics st)

  team_totals-IsMap : (metrics : List (PodMetrics F)) → IsMap (team_totals metrics)
  unfolding team_totals
  team_totals-IsMap metrics = tally-IsMap (λ m. m.team) (λ m. m.total_cost) metrics

  -- After any run of updates, whatever the orders of their loops and the clocks, the history is the
  -- last 480 points in the order of the updates, and the alerts are the last 50 of those that the
  -- updates called for, each update by the baselines from before it.
  pub update-suffix :
      {points : List (HistoryPoint F)} {alerts : List (Alert F)} {st : Store F}
      → Run points alerts st
      → (st.history ≡ suffix 480 points) × (st.alerts ≡ suffix 50 alerts)
  unfolding new_store update
  update-suffix (started now) = (refl, refl)
  update-suffix (updated {points} {alerts} {st} order clock now metrics run) =
      let (h, a) = update-suffix run in
      let teams = team_totals metrics in
      let (_, raised) =
        check_all_lem (trends clock) order teams
          (record { baselines = st.baselines; raised = st.alerts }) (team_totals-IsMap metrics) in
      let more = deserved (trends clock) st.baselines (order.visit teams) in
      (
        ap (λ l. trim 480 (l ++ (point_of now metrics ∷ []))) h
            ∙ trim-suffix-append 480 points (point_of now metrics),
        ap cut raised
            ∙ cut-eq-suffix (st.alerts ++ more)
            ∙ ap (λ l. suffix 50 (l ++ more)) a
            ∙ suffix-append 50 alerts more,
      )
