-- ===== src/Local/Main/Quiet.antt =====
-- `main` of cmd/local/main.go, for both of its modes, against what the events show one by one.
use koprobe.Prelude.{
  ltb_ℤ, pos, ℕ, ◌+◌, ◌≡◌, refl, sym, ap, ◌∙◌, Bool, true, Text, ℤ, Option, none, some, List, [],
  ◌∷◌, ◌++◌, map, length, length-map, if◌then◌else◌,
}
use koprobe.Float.{Double}
use koprobe.Float.Sums.{sum}
use koprobe.Local.Cluster.{build_cluster}
use koprobe.Local.Simulate.Ticks.{measured, profiled}
use koprobe.Local.Loop.{Program, Round, log_line, launch, round, rounds, report, rounds-launch}
use koprobe.Local.Options.{Setting, parse_options, banner, announcement}
use koprobe.Local.Server.{Page}
use koprobe.Local.Serving.{Visit}
use koprobe.Local.Main.{Event, Shown, printed, ticked, visited, visit, main}
use koprobe.Local.Main.Outcomes.{
  splits, until_none, rounds_of, after, shown_at, outcome, play-eq-outcome,
}
use koprobe.Prometheus.{Value}
use koprobe.Web.{Handler}

until_none-map :
    {A B : Type 0} (f : A → Option B) (g : A → B)
    → ((x : A) → f x ≡ some (g x))
    → (xs : List A) → until_none (map f xs) ≡ (map g xs, true)
unfolding until_none
until_none-map f g h [] = refl
until_none-map f g h (x ∷ xs) = rw (until_none, h x, until_none-map f g h xs) refl

-- what `main` prints before its loop
abbrev pub text_of : (decimal duration : ℤ → Text) → List Setting → Text
text_of decimal duration settings = banner ++ announcement decimal duration (parse_options settings)

-- whether the ticker can be made
abbrev pub is_ticking : List Setting → Bool
is_ticking settings = ltb_ℤ (pos 0) (parse_options settings).interval

-- whether the server's port can be bound
abbrev pub is_bound : (ℤ → Text) → (Text → Bool) → List Setting → Bool
is_bound address binds settings = binds (address (parse_options settings).port)

module _ {F : Type 0} ⦃d : Double F⦄ {R : Type 0} (draw : R → F × R) (sin : F → F) where
  -- the program after its initial tick
  abbrev pub begun : ℤ → R → Round F → Program F R
  begun now rng initial = round draw sin initial (launch draw sin now rng)

  module _ (encode : Page F → Text) (digits : Value F → Text) (unmatched : Handler)
      (bound : Bool) where
    -- what the requests before the initial tick get
    abbrev pub early_shown : ℤ → R → List (Visit F) → List (Shown F)
    early_shown now rng early =
        map (λ v. visit draw sin encode digits unmatched bound v (launch draw sin now rng).store)
          early

    -- what an event shows without the dashboard
    abbrev pub line_at : Program F R → List (Event F) × Event F → Shown F
    line_at p (seen, visited v) =
        visit draw sin encode digits unmatched bound v (after draw sin p seen).store
    line_at p (seen, ticked t) = printed (
        log_line (length (rounds_of seen) + 1)
          (sum (λ m. m.total_cost) (after draw sin p (seen ++ (ticked t ∷ []))).store.latest) 13)

module _ {F : Type 0} ⦃d : Double F⦄ {R : Type 0} (draw : R → F × R) (sin : F → F)
    (encode : Page F → Text) (digits : Value F → Text) (unmatched : Handler)
    (decimal duration address : ℤ → Text) (binds : Text → Bool) (settings : List Setting) (now : ℤ)
    (rng : R) (early : List (Visit F)) (initial : Round F) where
  -- `main` prints its banner, the interval and the endpoints; a request before the initial tick is
  -- answered from the empty store; and then each event shows what the events before it determine: a
  -- request the answer from the store after the ticks before it, or none if the port is taken, and a
  -- tick the dashboard or the line of the store after it, with the number of ticks. This up to the
  -- first panic of the dashboard, after which nothing is shown and no request is answered. If the
  -- interval is not positive, the program panics before its initial tick.
  pub main-eq-outcome :
      (es : List (Event F))
      → main draw sin encode digits unmatched decimal duration address binds settings now rng early
          initial es
        ≡ (if is_ticking settings
            then (
              text_of decimal duration settings,
              early_shown draw sin encode digits unmatched
                    (is_bound address binds settings)
                    now
                    rng
                    early
                  ++ (outcome draw sin encode digits unmatched
                      (parse_options settings).no_ui
                      (is_bound address binds settings)
                      (begun draw sin now rng initial)
                      []
                      es).0,
              (outcome draw sin encode digits unmatched
                  (parse_options settings).no_ui
                  (is_bound address binds settings)
                  (begun draw sin now rng initial)
                  []
                  es).1,
            )
            else (
              text_of decimal duration settings,
              early_shown draw sin encode digits unmatched
                  (is_bound address binds settings)
                  now
                  rng
                  early,
              none,
            ))
  unfolding main rounds rounds_of
  main-eq-outcome es =
      ap
        (λ (o : List (Shown F) × Option (Program F R)).
          if is_ticking settings
          then (
            text_of decimal duration settings,
            early_shown draw sin encode digits unmatched (is_bound address binds settings) now rng
                  early
                ++ o.0,
            o.1,
          )
          else (
            text_of decimal duration settings,
            early_shown draw sin encode digits unmatched (is_bound address binds settings) now rng
                early,
            none,
          ))
        (play-eq-outcome draw sin encode digits unmatched (parse_options settings).no_ui
          (is_bound address binds settings) (begun draw sin now rng initial) [] es)

  thirteen :
      (es : List (Event F))
      → length (after draw sin (begun draw sin now rng initial) es).store.latest ≡ 13
  unfolding rounds
  thirteen es =
      let shown = (rounds-launch draw sin now rng initial (rounds_of es)).0 in
      sym (length-map measured _)
      ∙ ap length shown
      ∙ length-map profiled (build_cluster {F = F})
      ∙ (unfold build_cluster in refl)

  shown_at-eq-line_at :
      (x : List (Event F) × Event F)
      → shown_at draw sin encode digits unmatched true
          (is_bound address binds settings)
          (begun draw sin now rng initial)
          x
        ≡ some (
            line_at draw sin encode digits unmatched
              (is_bound address binds settings)
              (begun draw sin now rng initial)
              x)
  unfolding shown_at report
  shown_at-eq-line_at (seen, visited v) = refl
  shown_at-eq-line_at (seen, ticked t) =
      ap
        (λ (n : ℕ). some (
          printed (
            log_line (length (rounds_of seen) + 1)
              (sum (λ m. m.total_cost)
                (after draw sin (begun draw sin now rng initial)
                  (seen ++ (ticked t ∷ []))).store.latest)
              n)))
        (thirteen (seen ++ (ticked t ∷ [])))

  -- With `-no-ui` and a positive interval the program never panics: it stands after the rounds of all
  -- its ticks, and each event shows something. The line of a tick has the number of ticks so far, the
  -- sum of the costs of the store as the tick leaves it, and 13 pods; a request is answered from the
  -- store after the ticks before it, or refused if the port is taken. This whatever the random source,
  -- the sine, the clocks and the orders of the loops.
  pub main_quiet :
      (es : List (Event F))
      → (parse_options settings).no_ui ≡ true
      → is_ticking settings ≡ true
      → main draw sin encode digits unmatched decimal duration address binds settings now rng early
          initial es
        ≡ (
          text_of decimal duration settings,
          early_shown draw sin encode digits unmatched
                (is_bound address binds settings)
                now
                rng
                early
              ++ map
                  (line_at draw sin encode digits unmatched
                    (is_bound address binds settings)
                    (begun draw sin now rng initial))
                  (splits [] es),
          some (rounds draw sin (initial ∷ rounds_of es) (launch draw sin now rng)),
        )
  unfolding rounds
  main_quiet es quiet ticking =
      main-eq-outcome es
      ∙ ap
          (λ (b : Bool).
            if b
            then (
              text_of decimal duration settings,
              early_shown draw sin encode digits unmatched (is_bound address binds settings) now rng
                    early
                  ++ (outcome draw sin encode digits unmatched (parse_options settings).no_ui
                      (is_bound address binds settings) (begun draw sin now rng initial) [] es).0,
              (outcome draw sin encode digits unmatched (parse_options settings).no_ui
                  (is_bound address binds settings) (begun draw sin now rng initial) [] es).1,
            )
            else (
              text_of decimal duration settings,
              early_shown draw sin encode digits unmatched (is_bound address binds settings) now rng
                  early,
              none,
            ))
          ticking
      ∙ ap
          (λ (b : Bool).
            let o =
              outcome draw sin encode digits unmatched b (is_bound address binds settings)
                (begun draw sin now rng initial) [] es in
            (
              text_of decimal duration settings,
              early_shown draw sin encode digits unmatched (is_bound address binds settings) now rng
                    early
                  ++ o.0,
              o.1,
            ))
          quiet
      ∙ ap
          (λ (r : List (Shown F) × Bool). (
            text_of decimal duration settings,
            early_shown draw sin encode digits unmatched (is_bound address binds settings) now rng
                  early
                ++ r.0,
            if r.1 then some (after draw sin (begun draw sin now rng initial) es) else none,
          ))
          (until_none-map
            (shown_at draw sin encode digits unmatched true (is_bound address binds settings)
              (begun draw sin now rng initial))
            (line_at draw sin encode digits unmatched (is_bound address binds settings)
              (begun draw sin now rng initial))
            shown_at-eq-line_at (splits [] es))
