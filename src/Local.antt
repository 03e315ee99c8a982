-- ===== src/Local.antt =====
-- cmd/local/main.go: the simulator's store, which keeps the latest metrics, a window of history
-- points, a baseline for each team and the last alerts. The lock makes `Update` one step. A message
-- is the record of the values that its text shows. The clock is read once for the point and once
-- for each alert, so the instants of the alerts are a function of the team. Server has the
-- routes.
pub mod Recent
pub mod Totals
pub mod Pages
pub mod Queries
pub mod Server
pub mod Serving
pub mod Served
pub mod Options
mod Samples
pub mod Main
pub mod Simulate
pub mod Cluster
pub mod Loop
pub mod Dashboard
pub mod Tests
use koprobe.Prelude.{
  ℕ, ◌-◌, Bool, ◌&&◌, text_eq, Text, ℤ, ltb, length, drop, List, [], ◌∷◌, ◌++◌, if◌then◌else◌,
}
use koprobe.Float.{Double, ◌⊕◌, ◌⊖◌, ◌⊗◌, ◌⊘◌, ◌≺◌, nought}
use koprobe.Float.Sums.{sum, tally}
use koprobe.GoMap.{Map}
use koprobe.GoMap.Ranging.{Order}
use koprobe.Window.{trim}
use koprobe.Baselines.{Tracker, Policy, check_all}

pub record PodMetrics (F : Type 0) : Type 0 where
  pub pod_name : Text
  pub namespace : Text
  pub team : Text
  pub service : Text
  pub feature : Text
  pub environment : Text
  pub cpu_cycles_billion : F
  pub memory_gb_hours : F
  pub network_egress_gb : F
  pub network_cross_az_gb : F
  pub network_internet_gb : F
  pub disk_read_miops : F
  pub disk_write_miops : F
  pub cpu_util_pct : F
  pub wasted_dollars : F
  pub cpu_cost : F
  pub memory_cost : F
  pub network_cost : F
  pub disk_cost : F
  pub total_cost : F

pub record HistoryPoint (F : Type 0) : Type 0 where
  pub time : ℤ
  pub total : F
  pub teams : Map Text F

-- The level and the values in the message: the percentage, and for a critical alert the cost.
pub data Level (F : Type 0) : Type 0 where
  critical : F → F → Level F
  warning : F → Level F

pub record Alert (F : Type 0) : Type 0 where
  pub time : ℤ
  pub team : Text
  pub level : Level F

pub record Store (F : Type 0) : Type 0 where
  pub latest : List (PodMetrics F)
  pub history : List (HistoryPoint F)
  pub baselines : Map Text F
  pub alerts : List (Alert F)
  pub start : ℤ

abbrev pub history_limit : ℕ
history_limit = 480

abbrev pub alert_limit : ℕ
alert_limit = 50

-- `if len(alerts) > 50 { alerts = alerts[len(alerts)-50:] }`
unfoldable pub cut : {A : Type 0} → List A → List A
cut alerts =
    if ltb alert_limit (length alerts) then drop (length alerts - alert_limit) alerts else alerts

module _ {F : Type 0} ⦃d : Double F⦄ where
  open d use {lit}

  unfoldable pub new_store : ℤ → Store F
  new_store now = record { latest = []; history = []; baselines = []; alerts = []; start = now }

  unfoldable pub team_totals : List (PodMetrics F) → Map Text F
  team_totals metrics = tally (λ m. m.team) (λ m. m.total_cost) metrics

  abbrev above : F → F → F
  above baseline cost = (cost ⊖ baseline) ⊘ baseline ⊗ lit 100 0

  unfoldable pub alerts_for : (Text → ℤ) → Text → F → F → List (Alert F)
  alerts_for clock team baseline cost =
      if (nought ≺ baseline) && (baseline ⊗ lit 25 1 ≺ cost)
      then record { time = clock team; team = team; level = critical (above baseline cost) cost }
        ∷ []
      else if (nought ≺ baseline) && (baseline ⊗ lit 15 1 ≺ cost)
      then record { time = clock team; team = team; level = warning (above baseline cost) } ∷ []
      else []

  -- what the loop over `teamTotals` reads, appends to the alerts, and keeps
  unfoldable pub trends : (Text → ℤ) → Policy F F (Alert F)
  unfolding alerts_for
  trends clock = record {
    cost_in = λ cost. cost;
    alerts = alerts_for clock;
    next = λ baseline cost. baseline ⊗ lit 92 2 ⊕ cost ⊗ lit 8 2;
  }

  -- the point of `now`
  unfoldable pub point_of : ℤ → List (PodMetrics F) → HistoryPoint F
  unfolding team_totals
  point_of now metrics = record {
    time = now;
    total = sum (λ m. m.total_cost) metrics;
    teams = team_totals metrics;
  }

  unfoldable pub update :
      Order (Text × F) → (Text → ℤ) → ℤ → List (PodMetrics F) → Store F → Store F
  unfolding trends point_of cut
  update order clock now metrics st =
      let tracker =
        check_all (trends clock) (record { baselines = st.baselines; raised = st.alerts })
          (order.visit (team_totals metrics)) in
      record {
        latest = metrics;
        history = trim history_limit (st.history ++ (point_of now metrics ∷ []));
        baselines = tracker.baselines;
        alerts = cut tracker.raised;
        start = st.start;
      }
