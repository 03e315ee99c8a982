-- ===== src/Slack/Tests.antt =====
-- A check over a snapshot of one pod, against a baseline that its team's cost exceeds.
use koprobe.Prelude.{none, ◌≡◌, refl, codes, pos, [], ◌∷◌, length, text_eq}
use koprobe.Float.Pico.{Pico, pico_double, Pico-IsOrdered, Pico-IsRounded}
use koprobe.GoMap.{lookup}
use koprobe.GoMap.Ranging.{forwards, backwards}
use koprobe.Aggregator.{TeamCost, Snapshot, latest_snapshot}
use koprobe.Baselines.{renewed, deserved}
use koprobe.Slack.{Exporter, spikes, check_anomalies}
use koprobe.Slack.Digest.{Message, weekly_digest}
use koprobe.Slack.Digest.Rows.{IsDigestOf, weekly_digest-IsDigestOf}
use koprobe.Sorting.{insertion}
use koprobe.Aggregator.Tests.{after, Run-after}

abbrev front : TeamCost Pico
front = record {
  team = codes "front";
  total_cost = pos 90;
  pod_count = 1;
  wasted_cost = pos 0;
  pods = [];
}

abbrev snap : Snapshot Pico
snap = record {
  timestamp = pos 5;
  pod_costs = [];
  team_costs = (codes "front", front) ∷ [];
  total = pos 90;
}

abbrev before : Exporter Pico
before = record { baselines = (codes "front", pos 40) ∷ (codes "data", pos 7) ∷ []; raised = [] }

one_alert : length (check_anomalies backwards snap before).raised ≡ 1
unfolding check_anomalies spikes lookup koprobe.Baselines.check_all koprobe.Baselines.check
one_alert = refl

abbrev digest : Message Pico
digest = weekly_digest backwards insertion forwards (pos 8) after after

weekly_digest-IsDigestOf_example :
    IsDigestOf Pico-IsOrdered backwards insertion (latest_snapshot (pos 8) after) digest
    × (digest.waste ≡ none)
weekly_digest-IsDigestOf_example =
    weekly_digest-IsDigestOf Pico-IsOrdered Pico-IsRounded backwards insertion forwards (pos 8)
      Run-after Run-after
