-- ===== src/Local/Main/Tests.antt =====
-- A run with a request before the initial tick and one between two ticks, without the dashboard.
use koprobe.Prelude.{
  some, none, if◌then◌else◌, map, refl, ◌==◌, ◌≡◌, true, text_eq, Bool, Text, codes, ℤ, pos, List,
  [], ◌∷◌, ◌++◌,
}
use koprobe.Float.Pico.{Pico, pico_double}
use koprobe.Sorting.{insertion}
use koprobe.GoMap.Ranging.{backwards}
use koprobe.Local.Samples.{draw, sin, first, second, half, encode, reads, nowhere, request}
use koprobe.Local.Loop.{launch, rounds}
use koprobe.Local.Options.{Setting, parse_options}
use koprobe.Local.Serving.{Visit}
use koprobe.Local.Main.{Tick, Event, ticked, visited, main}
use koprobe.Local.Main.Outcomes.{splits, outcome, rounds_of}
use koprobe.Local.Main.Quiet.{
  text_of, is_ticking, line_at, is_bound, begun, early_shown, main-eq-outcome, main_quiet,
}

abbrev settings : List Setting
settings = Setting.port (pos 9000) ∷ Setting.no_ui true ∷ []

abbrev shown_number : ℤ → Text
shown_number n = codes "9000"

abbrev duration : ℤ → Text
duration n = codes "3s"

abbrev address : ℤ → Text
address port = codes ":9000"

abbrev binds : Text → Bool
binds a = a == codes ":9000"

abbrev visit : Visit Pico
visit = record { request = request; reads = reads }

abbrev tick : Tick Pico
tick = record { round = second; order = backwards; team_sorter = insertion; pod_sorter = insertion }

abbrev events : List (Event Pico)
events = ticked tick ∷ visited visit ∷ ticked tick ∷ []

abbrev bound : Bool
bound = is_bound address binds settings

main-eq-outcome_example :
    main draw sin encode half nowhere shown_number duration address binds settings
      (pos 1)
      0
      (visit ∷ [])
      first
      events
    ≡ (if is_ticking settings
        then (
          text_of shown_number duration settings,
          early_shown draw sin encode half nowhere bound (pos 1) 0 (visit ∷ [])
              ++ (outcome draw sin encode half nowhere
                  (parse_options settings).no_ui
                  bound
                  (begun draw sin (pos 1) 0 first)
                  []
                  events).0,
          (outcome draw sin encode half nowhere
              (parse_options settings).no_ui
              bound
              (begun draw sin (pos 1) 0 first)
              []
              events).1,
        )
        else (
          text_of shown_number duration settings,
          early_shown draw sin encode half nowhere bound (pos 1) 0 (visit ∷ []),
          none,
        ))
main-eq-outcome_example =
    main-eq-outcome draw sin encode half nowhere shown_number duration address binds settings
      (pos 1) 0 (visit ∷ []) first events

no_dashboard : (parse_options settings).no_ui ≡ true
unfolding parse_options
no_dashboard = refl

ticking : is_ticking settings ≡ true
unfolding parse_options
ticking = refl

main_quiet_example :
    main draw sin encode half nowhere shown_number duration address binds settings
      (pos 1)
      0
      (visit ∷ [])
      first
      events
    ≡ (
      text_of shown_number duration settings,
      early_shown draw sin encode half nowhere bound (pos 1) 0 (visit ∷ [])
          ++ map
              (line_at draw sin encode half nowhere bound (begun draw sin (pos 1) 0 first))
              (splits [] events),
      some (rounds draw sin (first ∷ rounds_of events) (launch draw sin (pos 1) 0)),
    )
main_quiet_example =
    main_quiet draw sin encode half nowhere shown_number duration address binds settings (pos 1) 0
      (visit ∷ []) first events no_dashboard ticking

-- With an interval of 0 the program panics.
zero_interval :
    (main draw sin encode half nowhere shown_number duration address binds
      (Setting.interval (pos 0) ∷ [])
      (pos 1)
      0
      []
      first
      events).2
    ≡ none
unfolding main parse_options
zero_interval = refl
