-- ===== src/Local/Main.antt =====
-- cmd/local/main.go: `main` as a whole, with its server. What happens to the program is a list of
-- events: a tick of the ticker, or a request to the server. A panic of the dashboard ends everything.
pub mod Outcomes
pub mod Quiet
mod Tests
use koprobe.Prelude.{
  ltb_ℤ, pos, ℕ, ◌+◌, Bool, Text, ℤ, Option, none, some, List, [], ◌∷◌, ◌++◌, map, if◌then◌else◌,
}
use koprobe.Float.{Double}
use koprobe.GoMap.Ranging.{Order}
use koprobe.Sorting.{Sorter}
use koprobe.Local.{PodMetrics, Store}
use koprobe.Local.Simulate.{tick}
use koprobe.Local.Loop.{Program, Round, Report, launch, round, report}
use koprobe.Local.Options.{Setting, parse_options, banner, announcement}
use koprobe.Local.Server.{Page}
use koprobe.Local.Serving.{Visit, new_server, answer}
use koprobe.Prometheus.{Value}
use koprobe.Web.{Response, Handler}

-- One tick of the ticker, with what the round and the dashboard take from outside.
pub record Tick (F : Type 0) : Type 0 where
  pub round : Round F
  pub order : Order (Text × F)
  pub team_sorter : Sorter Text
  pub pod_sorter : Sorter (PodMetrics F)

pub data Event (F : Type 0) : Type 0 where
  ticked : Tick F → Event F
  visited : Visit F → Event F

-- What comes of an event: a request finds no server if its port could not be bound.
pub data Shown (F : Type 0) : Type 0 where
  printed : Report F → Shown F
  answered : Response → Shown F
  refused : Shown F

module _ {F : Type 0} ⦃d : Double F⦄ {R : Type 0} (draw : R → F × R) (sin : F → F)
    (encode : Page F → Text) (digits : Value F → Text) (unmatched : Handler) where
  -- a request to the server, which listens on its port or not
  unfoldable pub visit : (bound : Bool) → Visit F → Store F → Shown F
  visit bound v st = if bound then answered (answer encode digits unmatched (st, v)) else refused

  -- The loop of `main`, from its count of ticks on: what the events showed, and where the program
  -- stands, `none` after a panic.
  unfoldable pub play :
      (quiet bound : Bool)
      → ℕ
      → List (Event F)
      → Program F R
      → List (Shown F) × Option (Program F R)
  unfolding visit
  play quiet bound count [] p = ([], some p)
  play quiet bound count (visited v ∷ es) p =
      let (shown, end) = play quiet bound count es p in (visit bound v p.store ∷ shown, end)
  play quiet bound count (ticked t ∷ es) p =
      let (metrics, _) = tick draw sin t.round.ticked_at p.sim in
      let next = round draw sin t.round p in
      let rest = play quiet bound (count + 1) es next in
      elim (report quiet t.order t.team_sorter t.pod_sorter (count + 1) metrics next.store) [
        | none ↦ ([], none)
        | some out ↦ (printed out ∷ rest.0, rest.1)
      ]

  -- `main`: the text before its loop, what the events showed, and where the program stands. `early` are
  -- the requests before the initial tick. `NewTicker` panics unless the interval is positive.
  unfoldable pub main :
      (decimal duration address : ℤ → Text) (binds : Text → Bool)
      → List Setting
      → ℤ
      → R
      → (early : List (Visit F)) → Round F
      → List (Event F)
      → Text × List (Shown F) × Option (Program F R)
  unfolding visit play announcement
  main decimal duration address binds settings now rng early initial es =
      let o = parse_options settings in
      let server = new_server o.port in
      let bound = binds (address server.port) in
      let p = launch draw sin now rng in
      let text = banner ++ announcement decimal duration o in
      let first = map (λ v. visit bound v p.store) early in
      let (shown, end) = play o.no_ui bound 0 es (round draw sin initial p) in
      if ltb_ℤ (pos 0) o.interval then (text, first ++ shown, end) else (text, first, none)
