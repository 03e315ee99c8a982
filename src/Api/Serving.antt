-- ===== src/Api/Serving.antt =====
-- internal/exporter/api.go: `NewAPIServer` and `Start`. A request comes with the aggregator as it is
-- then, and with what its handler reads. How an address is printed, and whether it can be bound, are
-- parameters.
use mathlib.Core.List.{Memᴰ}
use koprobe.Prelude.{◌≡◌, Bool, Text, ℤ, All, List, [], ◌∷◌, map, if◌then◌else◌}
use koprobe.Float.{Double}
use koprobe.Aggregator.{Aggregator}
use koprobe.Api.Server.{Page, Reads, serve, origin, serve-cases}
use koprobe.Tickers.{Signal, Progress, returned}
use koprobe.Tickers.Rounds.{ticks_before, stands}
use koprobe.Web.{Request, Response, Handler}
use koprobe.Web.Serving.{listen_and_serve, listen_and_serve-stands}

pub record ApiServer : Type 0 where
  pub port : ℤ

abbrev pub new_api_server : ℤ → ApiServer
new_api_server port = record { port = port }

-- A request, with what answering it reads.
pub record Visit (F : Type 0) : Type 0 where
  pub request : Request
  pub reads : Reads F
  pub aggregator : Aggregator F

module _ {F : Type 0} ⦃d : Double F⦄ (encode : Page F → Text) (unmatched : Handler) where
  abbrev pub answer : Visit F → Response
  answer v = serve encode v.reads v.aggregator unmatched v.request

  unfoldable pub start :
      (address : ℤ → Text) (binds : Text → Bool)
      → ApiServer
      → List (Signal (Unit {0}) (Visit F))
      → Progress (List Response)
  start address binds s signals = listen_and_serve answer (binds (address s.port)) signals

  marked :
      ((req : Request) (w : Response)
        → Memᴰ origin w.headers
        → Memᴰ origin (unmatched req w).headers)
      → (visits : List (Visit F)) → All (λ w. Memᴰ origin w.headers) (map answer visits)
  marked keeps [] = tt
  marked keeps (v ∷ visits) =
      ((serve-cases encode v.reads v.aggregator unmatched keeps v.request).0, marked keeps visits)

  -- If the address can be bound, the server returns once its context has ended, and waits for requests
  -- before that. It answers each request before the end, in their order, from the aggregator as it is
  -- then, with the header that lets every origin read the answer, and none after the end. If the
  -- address cannot be bound, the server returns at once without a trace. This for whatever the library
  -- does about unknown paths, as long as it keeps the headers that are set.
  pub start-returns :
      (address : ℤ → Text) (binds : Text → Bool) (port : ℤ)
      (signals : List (Signal (Unit {0}) (Visit F)))
      → ((req : Request) (w : Response)
          → Memᴰ origin w.headers
          → Memᴰ origin (unmatched req w).headers)
      → (start address binds (new_api_server port) signals ≡ (
          if binds (address port)
          then stands signals (map answer (ticks_before signals))
          else returned []))
        × All (λ w. Memᴰ origin w.headers) (map answer (ticks_before signals))
  unfolding start
  start-returns address binds port signals keeps = (
    listen_and_serve-stands answer (binds (address port)) signals,
    marked keeps (ticks_before signals),
  )
