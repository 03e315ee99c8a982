-- ===== src/Slack/Alerts/Tests.antt =====
-- Two checks of one team, with the end of the context after them.
use koprobe.Prelude.{◌≡◌, refl, text_eq, Text, codes, pos, All, foldl, length, List, [], ◌∷◌, ◌++◌}
use koprobe.Float.Pico.{Pico, pico_double}
use koprobe.GoMap.{lookup, IsMap}
use koprobe.GoMap.Ranging.{backwards}
use koprobe.Aggregator.{TeamCost, latest_snapshot}
use koprobe.Aggregator.Tests.{start}
use koprobe.Baselines.{Tracker}
use koprobe.Slack.Posts.{Printer, Post, posted}
use koprobe.Slack.Loops.{Check, costs_in, start_anomaly_alerts}
use koprobe.Slack.Alerts.{rechecked, due, due_over, start_anomaly_alerts-returns}
use koprobe.Tickers.{Signal, done, tick}
use koprobe.Tickers.Rounds.{ticks_before, stands}

abbrev printer : Printer Pico
printer = record {
  fixed = λ n x. codes "0";
  decimal = λ n. codes "0";
  day = λ t. codes "Jan 1, 2024";
}

abbrev url : Text
url = codes "https://hooks.slack.com/x"

abbrev front : TeamCost Pico
front = record {
  team = codes "front";
  total_cost = pos 90;
  pod_count = 1;
  wasted_cost = pos 0;
  pods = [];
}

abbrev check : Check Pico
check = record {
  order = backwards;
  now = pos 6;
  aggregator = record start {
    history =
        record {
          timestamp = pos 5;
          pod_costs = [];
          team_costs = (codes "front", front) ∷ [];
          total = pos 90;
        }
        ∷ [];
  };
}

abbrev checks : List (Signal (Unit {0}) (Check Pico))
checks = tick check ∷ tick check ∷ done ∷ tick check ∷ []

abbrev before : Tracker Pico Post
before = record { baselines = (codes "front", pos 40) ∷ []; raised = [] }

checks_AreMaps : All (λ c. IsMap (costs_in c)) (ticks_before checks)
unfolding ticks_before lookup latest_snapshot
checks_AreMaps = ((refl, tt), ((refl, tt), tt))

start_anomaly_alerts-returns_example :
    (b : Tracker Pico Post) × (start_anomaly_alerts printer url checks before ≡ stands checks b)
    × ((team : Text)
        → lookup team b.baselines
          ≡ foldl (rechecked printer url team) (lookup team before.baselines) (ticks_before checks))
    × (b.raised
        ≡ before.raised
          ++ due_over printer url (λ team. lookup team before.baselines) (ticks_before checks))
start_anomaly_alerts-returns_example =
    start_anomaly_alerts-returns printer url checks before checks_AreMaps

-- The first check posts, and the second one does not, against the baseline that the first one left.
posts_once :
    length (due_over printer url (λ team. lookup team before.baselines) (ticks_before checks)) ≡ 1
unfolding due_over due ticks_before lookup latest_snapshot posted koprobe.Slack.spikes
posts_once = refl
