-- ===== src/Local/Dashboard.antt =====
-- cmd/local/main.go: what `printDashboard` prints, as the values of its lines, and `truncate`. The
-- frame, the headings, the formats of the numbers and the clock are left out. `strings.Repeat` panics
-- on a negative count, which ends the program: the screen is then `none`.
pub mod Bars
pub mod Rows
pub mod Screens
mod Tests
use koprobe.Prelude.{
  ℕ, zero, suc, ◌-◌, text_eq, ◌==◌, Text, ltb, ◌-ℤ◌, ltb_ℤ, ℤ, pos, pos_part, length, map, select,
  take, drop, Option, none, some, List, [], ◌∷◌, ◌++◌, if◌then◌else◌,
}
use koprobe.Float.{Double, ◌⊗◌, ◌⊘◌, ◌≺◌, nought}
use koprobe.Float.Sums.{sum}
use koprobe.GoMap.{Map, keys, lookup_or}
use koprobe.GoMap.Ranging.{Order}
use koprobe.Sorting.{Sorter}
use koprobe.Local.{PodMetrics, Alert, Store, team_totals}
use koprobe.Local.Totals.{pods_of}
use koprobe.Local.Pages.{pct, copies}

infixl 5 ◌>>=◌
abbrev pub ◌>>=◌ : {A B : Type 0} → Option A → (A → Option B) → Option B
none >>= f = none
some a >>= f = f a

pub record TeamLine (F : Type 0) : Type 0 where
  pub team : Text
  pub bar : Text
  pub cost : F
  pub cpu : F
  pub network : F
  pub waste : F

pub data Flag : Type 0 where
  plain wasteful costly : Flag

pub record PodLine (F : Type 0) : Type 0 where
  pub flag : Flag
  pub name : Text
  pub team : Text
  pub cost : F
  pub util : F

pub record Screen (F : Type 0) : Type 0 where
  pub tick : ℕ
  pub total : F
  pub wasted : F
  pub wasted_pct : F
  pub teams : List (TeamLine F)
  pub pods : List (PodLine F)
  pub alerts : List (Alert F)

-- the glyphs of a bar, and the ellipsis
abbrev pub full_cell : ℕ
full_cell = 9608

abbrev pub empty_cell : ℕ
empty_cell = 9617

-- `strings.Repeat` of one glyph
unfoldable pub repeat : ℕ → ℤ → Option Text
unfolding copies
repeat glyph count = if ltb_ℤ count (pos 0) then none else some (copies (pos_part count) glyph)

-- `strings.Repeat("█", barLen) + strings.Repeat("░", 20-barLen)`
unfoldable pub bar_of : ℤ → Option Text
unfolding repeat
bar_of bar_len = do
  full ← repeat full_cell bar_len
  empty ← repeat empty_cell (pos 20 -ℤ bar_len)
  some (full ++ empty)

-- `truncate`
unfoldable pub truncate : Text → ℕ → Text
truncate s n = if ltb n (length s) then take (n - 1) s ++ (8230 ∷ []) else s

-- `f` on each element, up to the first panic
unfoldable pub each_line : {A B : Type 0} → (A → Option B) → List A → Option (List B)
each_line f [] = some []
each_line f (x ∷ xs) = do line ← f x; lines ← each_line f xs; some (line ∷ lines)

module _ {F : Type 0} ⦃d : Double F⦄ where
  open d use {lit, trunc}

  -- `int(cost / total * 20)`
  unfoldable pub bar_len : F → F → ℤ
  bar_len cost total = trunc (cost ⊘ total ⊗ lit 20 0)

  -- the body of the loop over the sorted teams
  unfoldable pub team_line : List (PodMetrics F) → Map Text F → F → Text → Option (TeamLine F)
  unfolding bar_of bar_len
  team_line latest totals total team =
      let cost = lookup_or nought team totals in
      let pods = pods_of team latest in
      do
        bar ← bar_of (bar_len cost total)
        some (record {
          team = team;
          bar = bar;
          cost = cost;
          cpu = sum (λ m. m.cpu_cost) pods;
          network = sum (λ m. m.network_cost) pods;
          waste = sum (λ m. m.wasted_dollars) pods;
        })

  unfoldable pub flag_of : F → PodMetrics F → Flag
  flag_of total p =
      if (total ⊗ lit 25 2) ≺ p.total_cost
      then costly
      else if p.cpu_util_pct ≺ lit 20 0
      then wasteful
      else plain

  unfoldable pub pod_line : F → PodMetrics F → PodLine F
  unfolding flag_of truncate
  pod_line total p = record {
    flag = flag_of total p;
    name = truncate p.pod_name 22;
    team = p.team;
    cost = p.total_cost;
    util = p.cpu_util_pct;
  }

  -- `printDashboard`, with the order of its range over the teams and what `sort.Slice` makes of the
  -- teams and of the pods
  unfoldable pub print_dashboard :
      Order (Text × F) → Sorter Text → Sorter (PodMetrics F) → Store F → ℕ → Option (Screen F)
  unfolding each_line team_line pod_line
  print_dashboard order team_sorter pod_sorter st tick =
      let total = sum (λ m. m.total_cost) st.latest in
      let wasted = sum (λ m. m.wasted_dollars) st.latest in
      let totals = team_totals st.latest in
      let cost_of : Text → F = λ team. lookup_or nought team totals in
      let teams = team_sorter.sort (λ a b. cost_of b ≺ cost_of a) (keys (order.visit totals)) in
      let pods = pod_sorter.sort (λ a b. b.total_cost ≺ a.total_cost) st.latest in
      do
        lines ← each_line (team_line st.latest totals total) teams
        some (record {
          tick = tick;
          total = total;
          wasted = wasted;
          wasted_pct = pct wasted total;
          teams = lines;
          pods = map (pod_line total) (take 6 pods);
          alerts = drop (length st.alerts - 3) st.alerts;
        })
