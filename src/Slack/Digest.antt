-- ===== src/Slack/Digest.antt =====
-- internal/exporter/slack.go: the weekly digest. A message is the record of the values that its lines
-- show. The weekday (Sunday is 0) and the hour of a tick are what the time package says of it.
pub mod Rows
pub mod Weekly
use koprobe.Prelude.{
  ℕ, ◌+◌, ◌≡◌, ◌==◌, ◌&&◌, Bool, nat_eq, text_eq, leb, Text, ℤ, length, map, Option, none, some,
  List, [], ◌∷◌, if◌then◌else◌,
}
use koprobe.Float.{Double, ◌≺◌}
use koprobe.Float.Sums.{sum}
use koprobe.GoMap.Ranging.{Order}
use koprobe.Sorting.{Sorter}
use koprobe.Aggregator.{PodCost, TeamCost, Snapshot, Aggregator, latest_snapshot, waste_report}
use koprobe.Slack.{build_bar}

-- the `case` of the ticker in `StartWeeklyDigest`
unfoldable pub is_due : ℕ → ℕ → Bool
is_due weekday hour = (weekday == 1) && (hour == 9)

-- `for i, x := range xs { if i >= limit { break }; ... }`, from index `i` on: a line for each x
unfoldable pub lines_from : {A B : Type 0} → ℕ → (A → B) → ℕ → List A → List B
lines_from limit line i [] = []
lines_from limit line i (x ∷ xs) =
    let rest = lines_from limit line (i + 1) xs in if leb limit i then [] else line x ∷ rest

pub record TeamLine (F : Type 0) : Type 0 where
  pub bar : Text
  pub name : Text
  pub cost : F

pub record WasteLine (F : Type 0) : Type 0 where
  pub namespace : Text
  pub pod_name : Text
  pub percent : F
  pub wasted : F

-- the dollars wasted, by how many pods, and the first of them
pub record WasteSection (F : Type 0) : Type 0 where
  pub total_waste : F
  pub pod_count : ℕ
  pub pods : List (WasteLine F)

pub record Message (F : Type 0) : Type 0 where
  pub total : F
  pub teams : List (TeamLine F)
  pub waste : Option (WasteSection F)

-- `teamEntry`
pub record Entry (F : Type 0) : Type 0 where
  pub name : Text
  pub cost : F

module _ {F : Type 0} ⦃d : Double F⦄ where
  abbrev pub entry : Text × TeamCost F → Entry F
  entry (name, tc) = record { name = name; cost = tc.total_cost }

  abbrev pub team_line : F → Entry F → TeamLine F
  team_line total t = record { bar = build_bar t.cost total; name = t.name; cost = t.cost }

  abbrev pub waste_line : PodCost F → WasteLine F
  waste_line p = record {
    namespace = p.namespace;
    pod_name = p.pod_name;
    percent = p.cpu_utilization_pct;
    wasted = p.wasted_dollars;
  }

  unfoldable pub waste_section : List (PodCost F) → Option (WasteSection F)
  unfolding lines_from
  waste_section wasted = elim wasted [
    | [] ↦ none
    | p ∷ ps ↦ some (record {
      total_waste = sum (λ p. p.wasted_dollars) (p ∷ ps);
      pod_count = length (p ∷ ps);
      pods = lines_from 3 waste_line 0 (p ∷ ps);
    })
  ]

  -- the teams, sorted by cost
  unfoldable pub ranked : Order (Text × TeamCost F) → Sorter (Entry F) → Snapshot F → List (Entry F)
  ranked order sorter snap =
      sorter.sort (λ a b. b.cost ≺ a.cost) (map entry (order.visit snap.team_costs))

  -- the message of `sendWeeklyDigest`
  -- the aggregator may have moved on between the latest snapshot and the waste report
  unfoldable pub weekly_digest :
      Order (Text × TeamCost F)
      → Sorter (Entry F)
      → Order (Text × PodCost F)
      → ℤ
      → (a later : Aggregator F) → Message F
  unfolding lines_from ranked waste_section
  weekly_digest order sorter pods now a later =
      let snap = latest_snapshot now a in
      record {
        total = snap.total;
        teams = lines_from 5 (team_line snap.total) 0 (ranked order sorter snap);
        waste = waste_section (waste_report pods later);
      }
