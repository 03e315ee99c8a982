-- ===== src/Local/Dashboard/Tests.antt =====
-- The parts of the dashboard on small inputs.
use koprobe.Prelude.{
  ◌≡◌, refl, ◌⊎◌, true, false, ℕ, text_eq, Text, codes, pos, map, length, Option, none, some, List,
  [], ◌∷◌, All,
}
use koprobe.Float.Pico.{pico_double}
use koprobe.Slack.Bars.{cells}
use koprobe.Local.{PodMetrics, Store, team_totals, new_store}
use koprobe.Local.Tests.{twice}
use koprobe.Local.Dashboard.{Screen, Flag, truncate, pod_line, print_dashboard, bar_of}

long_name : length (truncate (codes "a-name-that-is-far-too-long") 22) ≡ 22
unfolding truncate
long_name = refl

full_bar : bar_of (pos 21) ≡ none
unfolding bar_of koprobe.Local.Dashboard.repeat koprobe.Prelude.◌-ℤ◌
full_bar = refl

-- A pod that idles, and has more than a quarter of the cost.
flagged : map (λ m. (pod_line (pos 1000) m).flag) twice.latest ≡ Flag.wasteful ∷ Flag.costly ∷ []
unfolding pod_line koprobe.Local.Dashboard.flag_of koprobe.Local.update
flagged = refl

fitting : bar_of (pos 3) ≡ some (cells 3 20)
unfolding bar_of koprobe.Local.Dashboard.repeat koprobe.Local.Pages.copies koprobe.Prelude.◌-ℤ◌
    cells
fitting = refl
