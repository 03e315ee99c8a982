-- ===== src/Tickers.antt =====
-- The loops `for { select { case <-ctx.Done(): return; case t := <-ticker.C: … } }` of
-- internal/aggregator/aggregator.go, internal/enricher/k8s.go and internal/exporter/slack.go, over what
-- happens to them in order: a tick, the end of the context, or a step of another goroutine on the state
-- that they share.
pub mod Rounds
use koprobe.Prelude.{Bool, true, false, Option, none, some, List, [], ◌∷◌, if◌then◌else◌}

pub data Signal (O S : Type 0) : Type 0 where
  done : Signal O S
  tick : S → Signal O S
  meanwhile : O → Signal O S

-- Where a loop stands after its signals: it has returned, it waits for more, or its body panicked.
pub data Progress (A : Type 0) : Type 0 where
  returned waiting : A → Progress A
  panicked : Progress A

module _ {O S A : Type 0} (others : O → A → A) (body : S → A → Option A) where
  unfoldable pub loop : List (Signal O S) → A → Progress A
  loop [] a = waiting a
  loop (done ∷ signals) a = returned a
  loop (meanwhile o ∷ signals) a = loop signals (others o a)
  loop (tick s ∷ signals) a = elim (body s a) [ none ↦ panicked | some b ↦ loop signals b ]
