-- ===== src/Slack.antt =====
-- internal/exporter/slack.go: alerts on cost spikes against a moving baseline of each team, and the
-- bars of the digest. An alert is the record of the values that its text shows; Posts has
-- the texts and `sendAlert`, and Loops the timers.
pub mod Anomalies
pub mod Bars
pub mod Digest
pub mod Posts
pub mod Loops
pub mod Alerts
pub mod Tests
use koprobe.Prelude.{
  ℕ, zero, suc, ◌+◌, ◌≡◌, Bool, true, false, ◌&&◌, text_eq, Text, codes, ltb_ℤ, ℤ, pos, foldl, List,
  [], ◌∷◌, ◌++◌, none, some, if◌then◌else◌,
}
use koprobe.Float.{Double, ◌⊕◌, ◌⊖◌, ◌⊗◌, ◌⊘◌, ◌≺◌, ◌≈◌, nought}
use koprobe.GoMap.{Map, lookup, insert}
use koprobe.GoMap.Ranging.{Order}
use koprobe.Aggregator.{TeamCost, Snapshot}
use koprobe.Baselines.{Tracker, Policy, check_all}

-- `team`, the current cost, the percentage above the baseline, and the baseline
pub record Spike (F : Type 0) : Type 0 where
  pub team : Text
  pub current : F
  pub percent : F
  pub baseline : F

-- The part of `SlackExporter` that changes, and the alerts sent.
abbrev pub Exporter : Type 0 → Type 0
Exporter F = Tracker F (Spike F)

-- `for i := 0; i < 10; i++`, with `left` rounds to go
unfoldable pub bar_from : ℤ → ℕ → ℕ → Text
bar_from filled i zero = []
bar_from filled i (suc left) =
    (if ltb_ℤ (pos i) filled then codes "█" else codes "░") ++ bar_from filled (i + 1) left

module _ {F : Type 0} ⦃d : Double F⦄ where
  open d use {lit, trunc}

  unfoldable pub new_slack : Exporter F
  new_slack = record { baselines = []; raised = [] }

  abbrev pub is_spike : F → F → Bool
  is_spike baseline cost = (nought ≺ baseline) && (baseline ⊗ lit 2 0 ≺ cost)

  abbrev pub spike : Text → F → F → Spike F
  spike team baseline cost = record {
    team = team;
    current = cost;
    percent = (cost ⊖ baseline) ⊘ baseline ⊗ lit 100 0;
    baseline = baseline;
  }

  abbrev pub next_baseline : F → F → F
  next_baseline baseline cost = baseline ⊗ lit 9 1 ⊕ cost ⊗ lit 1 1

  -- what the body of the loop of `checkAnomalies` reads, sends and keeps
  unfoldable pub spikes : Policy F (TeamCost F) (Spike F)
  spikes = record {
    cost_in = λ tc. tc.total_cost;
    alerts =
        λ team baseline cost. if is_spike baseline cost then spike team baseline cost ∷ [] else [];
    next = next_baseline;
  }

  -- on the latest snapshot, in the order of the loop
  unfoldable pub check_anomalies : Order (Text × TeamCost F) → Snapshot F → Exporter F → Exporter F
  unfolding spikes
  check_anomalies order snap s = check_all spikes s (order.visit snap.team_costs)

  unfoldable pub build_bar : F → F → Text
  unfolding bar_from
  build_bar value total =
      if total ≈ nought
      then codes "░░░░░░░░░░"
      else bar_from (trunc (value ⊘ total ⊗ lit 10 0)) 0 10
