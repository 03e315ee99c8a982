-- ===== src/Local/Serving.antt =====
-- cmd/local/main.go: `NewServer` and `Start` of the server, which nothing closes. A request comes with
-- the store as it is then, and with what its handler reads.
use koprobe.Prelude.{◌≡◌, refl, ap, ◌∙◌, Bool, Text, ℤ, List, [], ◌∷◌, map, if◌then◌else◌}
use koprobe.Float.{Double}
use koprobe.Local.{Store}
use koprobe.Local.Server.{Page, Reads, serve}
use koprobe.Prometheus.{Value}
use koprobe.Tickers.{Signal, tick, Progress, waiting, returned}
use koprobe.Tickers.Rounds.{ticks_before, stands}
use koprobe.Web.{Request, Response, Handler}
use koprobe.Web.Serving.{listen_and_serve, listen_and_serve-stands}

pub record Server : Type 0 where
  pub port : ℤ

abbrev pub new_server : ℤ → Server
new_server port = record { port = port }

-- A request, with what answering it reads besides the store.
pub record Visit (F : Type 0) : Type 0 where
  pub request : Request
  pub reads : Reads F

module _ {F : Type 0} ⦃d : Double F⦄ (encode : Page F → Text) (digits : Value F → Text)
    (unmatched : Handler) where
  abbrev pub answer : Store F × Visit F → Response
  answer (st, v) = serve encode digits v.reads st unmatched v.request

  unfoldable pub start :
      (address : ℤ → Text) (binds : Text → Bool)
      → Server
      → List (Store F × Visit F)
      → Progress (List Response)
  start address binds s visits = listen_and_serve answer (binds (address s.port)) (map tick visits)

  open_for :
      (visits : List (Store F × Visit F)) (sent : List Response)
      → stands {O = Unit {0}} (map tick visits) sent ≡ waiting sent
  unfolding stands koprobe.Tickers.Rounds.is_done
  open_for [] sent = refl
  open_for (v ∷ visits) sent = open_for visits sent

  ticks_before-map :
      (visits : List (Store F × Visit F)) → ticks_before {O = Unit {0}} (map tick visits) ≡ visits
  unfolding ticks_before
  ticks_before-map [] = refl
  ticks_before-map (v ∷ visits) = ap (λ l. v ∷ l) (ticks_before-map visits)

  -- If the address can be bound, the server never returns: it answers every request, in their order,
  -- from the store as it is then. Otherwise it returns at once.
  pub start-waits :
      (address : ℤ → Text) (binds : Text → Bool) (port : ℤ) (visits : List (Store F × Visit F))
      → start address binds (new_server port) visits
        ≡ (if binds (address port) then waiting (map answer visits) else returned [])
  unfolding start
  start-waits address binds port visits =
      listen_and_serve-stands answer (binds (address port)) (map tick visits)
      ∙ ap (λ p. if binds (address port) then p else returned [])
          (open_for visits (map answer (ticks_before {O = Unit {0}} (map tick visits)))
            ∙ ap (λ l. waiting (map answer l)) (ticks_before-map visits))
