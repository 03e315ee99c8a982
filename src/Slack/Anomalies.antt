-- ===== src/Slack/Anomalies.antt =====
-- `checkAnomalies` against the baselines from before the loop.
use koprobe.Prelude.{
  All, ◌≡◌, refl, false, text_eq, Text, List, [], ◌∷◌, ◌++◌, some, Option-cases, inl, inr,
}
use koprobe.Float.{Double}
use koprobe.GoMap.{Map, lookup, IsMap}
use koprobe.GoMap.Ranging.{Order}
use koprobe.Aggregator.{TeamCost, Snapshot}
use koprobe.Baselines.{renewed, deserved, check_all_lem}
use koprobe.Slack.{Exporter, is_spike, spikes, check_anomalies}

module _ {F : Type 0} ⦃d : Double F⦄ where
  -- One check, over a snapshot in which no team stands twice and in any order of the loop: a team of
  -- the snapshot without a baseline gets its cost as the baseline, one with a baseline gets the
  -- moving average of the two, and every other team keeps what it had; and the alerts sent are those
  -- that the baselines from before the check call for, one for each such team.
  pub check_anomalies_lem :
      (order : Order (Text × TeamCost F)) (snap : Snapshot F) (s : Exporter F)
      → IsMap snap.team_costs
      → ((team : Text)
          → lookup team (check_anomalies order snap s).baselines
            ≡ renewed spikes (lookup team s.baselines) (lookup team snap.team_costs))
        × ((check_anomalies order snap s).raised
            ≡ s.raised ++ deserved spikes s.baselines (order.visit snap.team_costs))
  unfolding check_anomalies
  check_anomalies_lem order snap s h = check_all_lem spikes order snap.team_costs s h

  -- No alert without cause: where no team's cost is above twice its baseline, none is called for.
  pub spikes-nil :
      (old : Map Text F) (teams : List (Text × TeamCost F))
      → All (λ e. (b : F) → lookup e.0 old ≡ some b → is_spike b e.1.total_cost ≡ false) teams
      → deserved spikes old teams ≡ []
  unfolding deserved spikes
  spikes-nil old [] h = refl
  spikes-nil old ((team, tc) ∷ teams) h = elim (Option-cases (lookup team old)) [
    | inl e ↦ rw (deserved, e) (spikes-nil old teams h.1)
    | inr (b, e) ↦ rw (deserved, e, h.0 b e) (spikes-nil old teams h.1)
  ]
