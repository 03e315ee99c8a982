-- ===== src/Local/Samples.antt =====
-- Inputs for tests of the simulator: a source that counts, a sine that is always 0, two rounds, and a
-- request for the page for Prometheus.
use koprobe.Prelude.{◌+◌, ◌*◌, ℕ, pos, Text, codes, []}
use koprobe.Float.Pico.{Pico, pico_double}
use koprobe.Sorting.{insertion}
use koprobe.GoMap.Ranging.{forwards, backwards}
use koprobe.Local.{Level}
use koprobe.Local.Server.{Page, Reads}
use koprobe.Local.Loop.{Round}
use koprobe.Prometheus.{Value}
use koprobe.Web.{Request, Handler}

abbrev pub draw : ℕ → Pico × ℕ
draw n = (pos (n * 1_000_000_000), n + 1)

abbrev pub sin : Pico → Pico
sin x = pos 0

abbrev pub first : Round Pico
first = record {
  ticked_at = pos 10;
  updated_at = pos 11;
  alerted_at = λ team. pos 12;
  order = forwards;
}

abbrev pub second : Round Pico
second = record {
  ticked_at = pos 20;
  updated_at = pos 21;
  alerted_at = λ team. pos 12;
  order = backwards;
}

abbrev pub half : Value Pico → Text
half v = codes "0.500000"

abbrev pub encode : Page Pico → Text
encode page = codes "{}"

abbrev pub reads : Reads Pico
reads = record {
  team_order = backwards;
  team_sorter = insertion;
  pod_sorter = insertion;
  now = pos 20;
  blank = record { time = pos 0; team = []; level = Level.warning (pos 0) };
}

abbrev pub nowhere : Handler
nowhere req w = record w { status = 404 }

abbrev pub request : Request
request = record { method = codes "GET"; path = codes "/metrics"; query = λ name. [] }
