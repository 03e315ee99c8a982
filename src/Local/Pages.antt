-- ===== src/Local/Pages.antt =====
-- cmd/local/main.go: what the simulator's handlers answer from the store.
pub mod Rows
pub mod Reversed
use koprobe.Prelude.{
  ℕ, zero, suc, ◌+◌, ◌-◌, ◌≡◌, ◌==◌, text_eq, Bool, ◌&&◌, not, Text, ℤ, pos, length, map, select,
  List, [], ◌∷◌, ◌++◌, if◌then◌else◌,
}
use koprobe.Float.{Double, ◌⊕◌, ◌⊗◌, ◌⊘◌, ◌≺◌, ◌≈◌, nought}
use koprobe.Float.Sums.{sum, tally}
use koprobe.GoMap.{Map, values}
use koprobe.GoMap.Groups.{group}
use koprobe.GoMap.Ranging.{Order}
use koprobe.Sorting.{Sorter}
use koprobe.Local.{PodMetrics, Alert, Store}

pub record TeamRow (F : Type 0) : Type 0 where
  pub team : Text
  pub total_cost : F
  pub cpu_cost : F
  pub memory_cost : F
  pub network_cost : F
  pub disk_cost : F
  pub wasted_cost : F
  pub waste_pct : F
  pub pod_count : ℕ

pub record Summary (F : Type 0) : Type 0 where
  pub total_cost : F
  pub wasted_cost : F
  pub waste_pct : F
  pub pod_count : ℕ
  pub team_count : ℕ

-- `rev[index] = x`; an index out of range, at which Go panics, changes nothing here
unfoldable pub put : {A : Type 0} → ℕ → A → List A → List A
put index x [] = []
put zero x (y ∷ ys) = x ∷ ys
put (suc index) x (y ∷ ys) = y ∷ put index x ys

-- `for i, a := range alerts { rev[len(alerts)-1-i] = a }`, from index `i` on
unfoldable pub fill : {A : Type 0} → ℕ → ℕ → List A → List A → List A
unfolding put
fill size i [] rev = rev
fill size i (a ∷ alerts) rev = fill size (i + 1) alerts (put (size - 1 - i) a rev)

unfoldable pub copies : {A : Type 0} → ℕ → A → List A
copies zero x = []
copies (suc n) x = x ∷ copies n x

module _ {F : Type 0} ⦃d : Double F⦄ where
  open d use {lit, round}

  unfoldable pub pct : F → F → F
  pct part total = if total ≈ nought then nought else round ((part ⊘ total) ⊗ lit 1000 0) ⊘ lit 10 0

  -- less the instant and the time since the start
  unfoldable pub summary : Store F → Summary F
  unfolding pct
  summary st =
      let total = sum (λ m. m.total_cost) st.latest in
      let wasted = sum (λ m. m.wasted_dollars) st.latest in
      record {
        total_cost = total;
        wasted_cost = wasted;
        waste_pct = pct wasted total;
        pod_count = length st.latest;
        team_count = length (tally (λ m. m.team) (λ m. m.total_cost) st.latest);
      }

  abbrev pub empty_row : Text → TeamRow F
  empty_row team = record {
    team = team;
    total_cost = nought;
    cpu_cost = nought;
    memory_cost = nought;
    network_cost = nought;
    disk_cost = nought;
    wasted_cost = nought;
    waste_pct = nought;
    pod_count = 0;
  }

  unfoldable pub add_row : PodMetrics F → TeamRow F → TeamRow F
  add_row m e = record e {
    total_cost = e.total_cost ⊕ m.total_cost;
    cpu_cost = e.cpu_cost ⊕ m.cpu_cost;
    memory_cost = e.memory_cost ⊕ m.memory_cost;
    network_cost = e.network_cost ⊕ m.network_cost;
    disk_cost = e.disk_cost ⊕ m.disk_cost;
    wasted_cost = e.wasted_cost ⊕ m.wasted_dollars;
    pod_count = e.pod_count + 1;
  }

  unfoldable pub team_rows : List (PodMetrics F) → Map Text (TeamRow F)
  unfolding add_row
  team_rows metrics = group (λ m. m.team) empty_row add_row metrics []

  unfoldable pub with_pct : TeamRow F → TeamRow F
  unfolding pct
  with_pct row = record row { waste_pct = pct row.wasted_cost row.total_cost }

  unfoldable pub by_team :
      Order (Text × TeamRow F) → Sorter (TeamRow F) → Store F → List (TeamRow F)
  unfolding with_pct team_rows
  by_team order sorter st =
      sorter.sort (λ a b. b.total_cost ≺ a.total_cost)
        (map with_pct (values (order.visit (team_rows st.latest))))

  -- the pods below 20 percent, before and after sorting, what they waste in all, and their number
  unfoldable pub waste : Sorter (PodMetrics F) → Store F → List (PodMetrics F) × F × ℕ
  waste sorter st =
      let out = select (λ m. m.cpu_util_pct ≺ lit 20 0) st.latest in
      let sorted = sorter.sort (λ a b. b.wasted_dollars ≺ a.wasted_dollars) out in
      (sorted, sum (λ m. m.wasted_dollars) out, length sorted)

  -- `alertsHandler`, where `blank` is the zero value of an alert
  unfoldable pub alerts_page : Alert F → Store F → List (Alert F) × ℕ
  unfolding fill copies
  alerts_page blank st =
      let size = length st.alerts in
      let rev = fill size 0 st.alerts (copies size blank) in (rev, length rev)
