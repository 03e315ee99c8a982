-- ===== src/Api/Server/Tests.antt =====
-- Requests to the server in a state of a run, and a server whose address is taken.
use mathlib.Core.List.{Memᴰ}
use koprobe.Prelude.{
  refl, Bool, false, length, ℤ, All, List, map, ◌≡◌, ◌==◌, text_eq, Text, codes, pos, none, some,
  [], ◌∷◌, ◌++◌, if◌then◌else◌,
}
use koprobe.Float.Pico.{Pico, pico_double}
use koprobe.GoMap.{lookup}
use koprobe.GoMap.Ranging.{forwards, backwards}
use koprobe.Sorting.{insertion}
use koprobe.Aggregator.Tests.{after}
use koprobe.Api.Server.{Page, Reads, serve, pages, allowed, origin, serve-cases}
use koprobe.Api.Serving.{Visit, new_api_server, answer, start, start-returns}
use koprobe.Tickers.{Signal, done, tick, returned}
use koprobe.Tickers.Rounds.{ticks_before, stands}
use koprobe.Web.{Request, Response, Handler}

abbrev encode : Page Pico → Text
encode page = codes "{}"

abbrev reads : Reads Pico
reads = record {
  team_order = backwards;
  cost_order = forwards;
  team_sorter = insertion;
  pod_sorter = insertion;
  scan = λ t. pos 0;
  now = pos 9;
}

abbrev not_found : Handler
not_found req w = record w { status = 404; body = codes "404 page not found\n" }

abbrev request : Request
request = record { method = codes "GET"; path = codes "/api/v1/costs/waste"; query = λ name. [] }

serve-cases_example :
    Memᴰ origin (serve encode reads after not_found request).headers
    × (serve encode reads after not_found request ≡ (
        if request.method == codes "OPTIONS"
        then allowed
        else elim (lookup request.path (pages encode reads after request)) [
          | none ↦ not_found request allowed
          | some page ↦ record {
            headers = allowed.headers ++ ((codes "Content-Type", codes "application/json") ∷ []);
            status = 200;
            body = encode page;
          }
        ]))
serve-cases_example = serve-cases encode reads after not_found (λ req w m. m) request

abbrev visit : Visit Pico
visit = record { request = request; reads = reads; aggregator = after }

-- two requests, the end of the context, and a request after it
abbrev visits : List (Signal (Unit {0}) (Visit Pico))
visits =
    tick visit
    ∷ tick (record visit { request = record request { path = [] } })
    ∷ done
    ∷ tick visit
    ∷ []

abbrev address : ℤ → Text
address port = codes ":8080"

abbrev binds_all : Text → Bool
binds_all a = a == codes ":8080"

start-returns_example :
    (start encode not_found address binds_all (new_api_server (pos 8080)) visits ≡ (
      if binds_all (address (pos 8080))
      then stands visits (map (answer encode not_found) (ticks_before visits))
      else returned []))
    × All (λ w. Memᴰ origin w.headers) (map (answer encode not_found) (ticks_before visits))
start-returns_example =
    start-returns encode not_found address binds_all (pos 8080) visits (λ req w m. m)

two_answers : length (ticks_before visits) ≡ 2
unfolding ticks_before
two_answers = refl

-- A port in use is not reported.
not_bound :
    start encode not_found address (λ a. false) (new_api_server (pos 8080)) visits ≡ returned []
unfolding start koprobe.Web.Serving.listen_and_serve
not_bound = refl
