-- ===== src/Slack/Digest/Weekly/Tests.antt =====
-- Two weeks of hourly ticks from a Friday on, and one more tick.
use koprobe.Prelude.{ℕ, ◌*◌, ◌/◌, ◌%◌, ◌≡◌, refl, Text, codes, pos, map, [], ◌∷◌, ◌++◌}
use koprobe.Float.Pico.{Pico, pico_double}
use koprobe.GoMap.Ranging.{backwards}
use koprobe.Aggregator.Tests.{start}
use koprobe.Sorting.{insertion}
use koprobe.Slack.Posts.{Printer}
use koprobe.Slack.Loops.{Hour, start_weekly_digest, digest_post}
use koprobe.Slack.Digest.Weekly.{
  count_from, monday_at_nine, mondays_before, ticks_of, start_weekly_digest-weekly,
}
use koprobe.Tickers.{tick, done, returned}

abbrev printer : Printer Pico
printer = record {
  fixed = λ n x. codes "0";
  decimal = λ n. codes "0";
  day = λ t. codes "Jan 1, 2024";
}

abbrev url : Text
url = codes "https://hooks.slack.com/x"

abbrev monday : Hour Pico
monday = record {
  weekday = 1;
  hour = 9;
  now = pos 0;
  dated = pos 0;
  aggregator = start;
  later = start;
  teams = backwards;
  pods = backwards;
  sorter = insertion;
}

abbrev at : ℕ → Hour Pico
at i = record monday { weekday = i / 24 % 7; hour = i % 24 }

start_weekly_digest-weekly_example :
    start_weekly_digest printer url
      (ticks_of at (count_from 127 (168 * 2)) (done ∷ tick monday ∷ []))
      []
    ≡ returned (
        []
        ++ map
            (λ week. digest_post printer url (at (monday_at_nine week)))
            (count_from (mondays_before 127) 2))
start_weekly_digest-weekly_example =
    start_weekly_digest-weekly printer url at (λ i. (refl, refl)) 127 2 (tick monday ∷ []) []

-- the Mondays of these weeks
mondays_posted : map monday_at_nine (count_from (mondays_before 127) 2) ≡ 201 ∷ 369 ∷ []
unfolding count_from monday_at_nine mondays_before
mondays_posted = refl
