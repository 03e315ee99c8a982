-- ===== src/Aggregator/Running.antt =====
-- `Run`: the loop that collects at every tick until the daemon is told to end, with the steps of the
-- other goroutines between its ticks.
use mathlib.Core.List.{append-nil, append_assoc}
use mathlib.Core.Path.{subst}
use koprobe.Prelude.{
  ◌≡◌, refl, sym, ℤ, some, Result, Option, List, [], ◌∷◌, ◌++◌, length, length-append, arith,
}
use koprobe.Float.{Double}
use koprobe.Collector.Events.{Event, send}
use koprobe.Enricher.{Files, Pod, sync_pods}
use koprobe.Pricing.{Http, refresh}
use koprobe.Aggregator.{Aggregator, Snapshot, Orders, snapshot_at, collect_at, collect}
use koprobe.Aggregator.Runs.{Run, measured, synced, refreshed, ticked}
use koprobe.Aggregator.History.{Run-get}
use koprobe.Tickers.{Signal, Progress, loop}
use koprobe.Tickers.Rounds.{ticks_before, stands, loop-stands}

-- What the other goroutines do to the aggregator's parts. The refresh that `Get` starts for stale prices
-- is one of these.
pub data Other : Type 0 where
  update : Event → Other
  listing : Files → Result (List Pod) → Other
  fetched : Http → ℤ → Other

-- What a tick takes from outside: the orders of its loops and the instants it reads.
pub record Tick (F : Type 0) : Type 0 where
  pub orders : Orders F
  pub asked : ℤ
  pub now : ℤ

module _ {F : Type 0} ⦃d : Double F⦄ where
  unfoldable pub others : Other → Aggregator F → Aggregator F
  others (update e) a = record a { collectors = send e a.collectors }
  others (listing files pods) a = record a { enricher = (sync_pods files pods a.enricher).0 }
  others (fetched http now) a = record a { pricer = (refresh http now a.pricer).0 }

  abbrev collect_on : Tick F → Aggregator F → Option (Aggregator F)
  collect_on t a = collect t.orders t.asked t.now a

  -- `Run`, from the state that its goroutine finds
  unfoldable pub run : List (Signal Other (Tick F)) → Aggregator F → Progress (Aggregator F)
  unfolding others
  run signals a = loop others collect_on signals a

  -- the state continues a run, by a snapshot for each tick
  abbrev Continues : List (Snapshot F) → List (Tick F) → Aggregator F → Type 0
  Continues snaps ticks a =
      (more : List (Snapshot F)) × Run (snaps ++ more) a × (length more ≡ length ticks)

  others-Run :
      (snaps : List (Snapshot F)) (o : Other) (a : Aggregator F)
      → Run snaps a
      → Run snaps (others o a)
  unfolding others
  others-Run snaps (update e) a r = measured e r
  others-Run snaps (listing files pods) a r = synced files pods r
  others-Run snaps (fetched http now) a r = refreshed http now r

  collect_on-Continues :
      (snaps : List (Snapshot F)) (seen : List (Tick F)) (t : Tick F) (a : Aggregator F)
      → Continues snaps seen a
      → (b : Aggregator F) × (collect_on t a ≡ some b) × Continues snaps (seen ++ (t ∷ [])) b
  unfolding collect
  collect_on-Continues snaps seen t a (more, r, same) =
      let (prices, stale, found) = Run-get t.asked r in
      let snap = snapshot_at t.orders t.now prices a in
      (
        collect_at t.orders t.now prices a,
        rw (collect, found) refl,
        (
          more ++ (snap ∷ []),
          subst (λ l. Run l (collect_at t.orders t.now prices a))
              (append_assoc snaps more (snap ∷ []))
              (ticked t.orders t.asked t.now prices stale found r),
          omega (arith, same, length-append more (snap ∷ []), length-append seen (t ∷ [])),
        ),
      )

  -- `Run` returns once the context has ended, and waits for signals before that: it never panics, in
  -- whatever state of the daemon it starts and whatever the other goroutines do between its ticks. It
  -- leaves a state of the daemon, with one more snapshot for each tick before the end of the context
  -- and none after it.
  pub run-returns :
      {snaps : List (Snapshot F)} {a : Aggregator F} (signals : List (Signal Other (Tick F)))
      → Run snaps a
      → (b : Aggregator F) × (more : List (Snapshot F)) × (run signals a ≡ stands signals b)
        × Run (snaps ++ more) b
        × (length more ≡ length (ticks_before signals))
  unfolding run
  run-returns {snaps} {a} signals r =
      let (b, same, (more, end, count)) =
        loop-stands others collect_on (Continues snaps)
          (λ seen o x (more, q, n). (more, others-Run (snaps ++ more) o x q, n))
          (collect_on-Continues snaps) signals a
          ([], subst (λ l. Run l a) (sym (append-nil snaps)) r, refl) in
      (b, more, same, end, count)
