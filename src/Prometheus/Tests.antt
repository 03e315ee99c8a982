-- ===== src/Prometheus/Tests.antt =====
-- A scrape of a snapshot of two pods.
use koprobe.Prelude.{
  refl, All, some, ◌≡◌, text_eq, Text, codes, ℕ, ◌*◌, ◌^◌, pos, map, List, [], ◌∷◌,
}
use koprobe.Float.Pico.{Pico, pico_double}
use koprobe.GoMap.Ranging.{backwards}
use koprobe.Collector.{fresh_metrics}
use koprobe.Pricing.{default_prices}
use koprobe.Aggregator.{
  PodCost, Aggregator, cost_of, build_snapshot, latest_snapshot, add_to_snapshot,
}
use koprobe.Aggregator.Tests.{start}
use koprobe.Prometheus.{Value, scrape}
use koprobe.Prometheus.Lines.{print_label, print_labels}
use koprobe.Prometheus.Reading.{lacks, IsWord, read_page}
use koprobe.Prometheus.Pages.{told}
use koprobe.Prometheus.Server.{serve}
use koprobe.Prometheus.Served.{IsReadablePod, IsReadableTeam, read_page-serve}
use koprobe.Web.{Request, Handler}

abbrev cost : Text → ℕ → PodCost Pico
cost name cycles =
    cost_of (default_prices (codes "aws") (codes "r") (pos 0)) (pos 9)
      (record {
        pod_name = name;
        namespace = codes "shop";
        node_name = codes "n1";
        team_label = codes "front";
        service_label = name;
        feature_label = [];
        cost_center = [];
        environment = codes "production";
        cgroup_id = 1;
        container_id = codes "ab";
      })
      (record (fresh_metrics 1) { cpu_cycles = cycles })

abbrev costs : List (PodCost Pico)
costs = cost (codes "web") (3 * 10 ^ 9) ∷ cost (codes "cdn") (5 * 10 ^ 9) ∷ []

abbrev web_labels : List (Text × Text)
web_labels =
    (codes "namespace", codes "shop") ∷ (codes "pod", codes "web") ∷ (codes "team", []) ∷ []

printed : print_labels web_labels ≡ codes "namespace=\"shop\",pod=\"web\",team=\"\""
unfolding print_labels print_label
printed = refl

abbrev served : Aggregator Pico
served = record start { history = build_snapshot (pos 9) costs ∷ [] }

unfoldable digits : Value Pico → Text
digits (Value.amount x) = codes "0.500000"
digits (Value.count n) = codes "2"

digits-IsWord : (v : Value Pico) → IsWord (digits v)
unfolding digits lacks
digits-IsWord (Value.amount x) = (refl, refl, refl, refl, refl)
digits-IsWord (Value.count n) = (refl, refl, refl, refl, refl)

abbrev nowhere : Handler
nowhere req w = record w { status = 404 }

abbrev request : Request
request = record { method = codes "GET"; path = codes "/metrics"; query = λ name. [] }

pods_readable : All IsReadablePod (latest_snapshot (pos 10) served).pod_costs
unfolding lacks latest_snapshot build_snapshot cost_of koprobe.Aggregator.add_to_snapshot
    koprobe.Aggregator.add_pod_cost koprobe.GoMap.change koprobe.Aggregator.add_waste
    koprobe.Aggregator.apply_prices koprobe.Aggregator.convert
pods_readable = (
  ((refl, refl), ((refl, refl), ((refl, refl), ((refl, refl), ((refl, refl), tt))))),
  (((refl, refl), ((refl, refl), ((refl, refl), ((refl, refl), ((refl, refl), tt))))), tt),
)

teams_readable : All IsReadableTeam (latest_snapshot (pos 10) served).team_costs
unfolding lacks latest_snapshot build_snapshot cost_of koprobe.Aggregator.add_to_snapshot
    koprobe.Aggregator.add_pod_cost koprobe.GoMap.change koprobe.Aggregator.add_waste
    koprobe.Aggregator.apply_prices koprobe.Aggregator.convert koprobe.GoMap.insert
    koprobe.GoMap.lookup
teams_readable = ((refl, refl), tt)

read_page-serve_example :
    ((serve digits backwards (pos 10) served nowhere request).status ≡ 200)
    × (read_page (serve digits backwards (pos 10) served nowhere request).body
        ≡ some (map (told digits) (scrape backwards (latest_snapshot (pos 10) served))))
read_page-serve_example =
    read_page-serve digits digits-IsWord backwards (pos 10) served nowhere request refl
      pods_readable teams_readable
