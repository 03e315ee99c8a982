-- ===== src/Pricing/Tests.antt =====
-- Runs of the pricer, and its theorems at concrete networks, over the numbers of `Float.Pico`.
use koprobe.Prelude.{◌≡◌, refl, text_eq, Text, codes, pos, none}
use koprobe.Float.Pico.{Pico, pico_double}
use koprobe.Pricing.{Pricer, Http, Reply, new_pricer}
use koprobe.Pricing.Ready.{IsReady, new_pricer-IsReady}
use koprobe.Pricing.Regions.{egress_price}

abbrev offline : Http
offline url = Reply.failed (codes "timeout")

abbrev online : Http
online url = Reply.decoded

abbrev dublin : Text
dublin = codes "eu-west-1"

abbrev started : Pricer Pico
started = (new_pricer online (pos 5) (pos 6) (codes "aws") dublin).0

new_pricer-IsReady_example :
    let made = new_pricer {F = Pico} offline (pos 5) (pos 6) (codes "ibm") dublin in
    IsReady made.0 × (made.1 ≡ none) × (made.0.provider ≡ codes "ibm") × (made.0.region ≡ dublin)
new_pricer-IsReady_example = new_pricer-IsReady offline (pos 5) (pos 6) (codes "ibm") dublin

abbrev ibm : Pricer Pico
ibm = record { prices = none; provider = codes "ibm"; region = dublin }

european_egress : egress_price {F = Pico} dublin ≡ pos 99_000_000_000
european_egress = refl
