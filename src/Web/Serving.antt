-- ===== src/Web/Serving.antt =====
-- How the servers of internal/exporter/ and cmd/local/main.go run: `ListenAndServe` answers requests
-- until the goroutine beside it, which waits for the end of the context, closes the server. A server
-- whose address cannot be bound returns at once, and its error is dropped.
use mathlib.Core.List.{map-append}
use koprobe.Prelude.{
  ◌≡◌, refl, sym, ap, ◌∙◌, Bool, true, false, Option, some, List, [], ◌∷◌, ◌++◌, map, if◌then◌else◌,
}
use koprobe.Web.{Response}
use koprobe.Tickers.{Signal, Progress, returned, loop}
use koprobe.Tickers.Rounds.{ticks_before, stands, loop-stands}

module _ {S : Type 0} (answer : S → Response) where
  abbrev nobody : Unit {0} → List Response → List Response
  nobody _ sent = sent

  abbrev answer_to : S → List Response → Option (List Response)
  answer_to s sent = some (sent ++ (answer s ∷ []))

  -- what the server has answered, where a tick of the loop is a request with what its handler reads
  unfoldable pub listen_and_serve :
      (bound : Bool) → List (Signal (Unit {0}) S) → Progress (List Response)
  listen_and_serve bound signals = if bound then loop nobody answer_to signals [] else returned []

  stands_bound :
      (signals : List (Signal (Unit {0}) S))
      → loop nobody answer_to signals [] ≡ stands signals (map answer (ticks_before signals))
  stands_bound signals =
      let (b, same, end) =
        loop-stands nobody answer_to (λ seen sent. sent ≡ map answer seen) (λ seen o sent h. h)
          (λ seen s sent h.
            (_, refl, ap (λ l. l ++ (answer s ∷ [])) h ∙ sym (map-append answer seen (s ∷ []))))
          signals [] refl in
      same ∙ ap (stands signals) end

  -- A server that is bound returns once its context has ended, and waits for requests before that; it
  -- answers each request before the end, in their order, and none after it. A server that is not
  -- bound returns at once.
  pub listen_and_serve-stands :
      (bound : Bool) (signals : List (Signal (Unit {0}) S))
      → listen_and_serve bound signals
        ≡ (if bound then stands signals (map answer (ticks_before signals)) else returned [])
  unfolding listen_and_serve
  listen_and_serve-stands true signals = stands_bound signals
  listen_and_serve-stands false signals = refl
