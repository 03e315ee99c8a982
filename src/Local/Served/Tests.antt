-- ===== src/Local/Served/Tests.antt =====
-- The page for Prometheus after one round.
use mathlib.Core.List.{Memᴰ}
use koprobe.Prelude.{some, ◌≡◌, refl, pos, map, [], ◌∷◌}
use koprobe.Float.Pico.{Pico, pico_double}
use koprobe.Local.{Store}
use koprobe.Local.Samples.{draw, sin, first, half, encode, reads, nowhere, request}
use koprobe.Local.Queries.{prometheus}
use koprobe.Local.Server.{serve}
use koprobe.Local.Loop.{launch, rounds}
use koprobe.Local.Served.{origin, read_page-rounds}
use koprobe.Prometheus.{Value}
use koprobe.Prometheus.Reading.{IsWord, lacks, read_page}
use koprobe.Prometheus.Pages.{told}

half-IsWord : (v : Value Pico) → IsWord (half v)
unfolding lacks
half-IsWord v = (refl, refl, refl, refl, refl)

abbrev shown : Store Pico
shown = (rounds draw sin (first ∷ []) (launch draw sin (pos 1) 0)).store

read_page-rounds_example :
    ((serve encode half reads shown nowhere request).status ≡ 200)
    × Memᴰ origin (serve encode half reads shown nowhere request).headers
    × (read_page (serve encode half reads shown nowhere request).body
        ≡ some (map (told half) (prometheus shown)))
read_page-rounds_example =
    read_page-rounds half half-IsWord draw sin encode reads (pos 1) 0 (first ∷ []) nowhere request
      refl refl
