-- ===== src/Local/Queries.antt =====
-- cmd/local/main.go: the handlers by pod, for the history and for Prometheus, and the middleware.
-- The parameters of the query are arguments, empty where they are missing.
use mathlib.Core.List.{Permᴰ, append-nil, append_assoc}
use mathlib.Core.Path.{subst}
use koprobe.Prelude.{
  ◌≡◌, refl, sym, ap, ◌∙◌, foldl, Bool, ◌&&◌, ◌||◌, not, ◌==◌, text_eq, Text, codes, select,
  select-append, map, List, [], ◌∷◌, ◌++◌, arith, if◌then◌else◌,
}
use koprobe.Float.{Double, ◌⊕◌, ◌≺◌, nought}
use koprobe.Float.Sums.{sum}
use koprobe.Sorting.{Sorter}
use koprobe.Prometheus.{Sample, each, sample}
use koprobe.Prometheus.Totals.{named, named-each, each-singleton, each-nil}
use koprobe.Web.{Response}
use koprobe.Local.{PodMetrics, HistoryPoint, Store}
use koprobe.Local.Pages.{summary}

-- `cors`, around a handler and for the method of a request
unfoldable pub cors : (Response → Response) → Text → Response → Response
cors next method w =
    let allowed = record w {
      headers = w.headers ++ ((codes "Access-Control-Allow-Origin", codes "*") ∷ []);
    } in
    if method == codes "OPTIONS" then record allowed { status = 200 } else next allowed

module _ {F : Type 0} ⦃d : Double F⦄ where
  -- the loop of `byPod`
  unfoldable pub filter_metrics : Text → Text → List (PodMetrics F) → List (PodMetrics F)
  filter_metrics team namespace [] = []
  filter_metrics team namespace (m ∷ metrics) =
      let rest = filter_metrics team namespace metrics in
      if not (team == []) && not (m.team == team)
      then rest
      else if not (namespace == []) && not (m.namespace == namespace)
      then rest
      else m ∷ rest

  unfoldable pub by_pod : Sorter (PodMetrics F) → Text → Text → Store F → List (PodMetrics F)
  unfolding filter_metrics
  by_pod sorter team namespace st =
      sorter.sort (λ a b. b.total_cost ≺ a.total_cost) (filter_metrics team namespace st.latest)

  unfoldable pub history : Store F → List (HistoryPoint F)
  history st = st.history

  abbrev pub metric_labels : PodMetrics F → List (Text × Text)
  metric_labels m =
      (codes "namespace", m.namespace)
      ∷ (codes "pod", m.pod_name)
      ∷ (codes "team", m.team)
      ∷ (codes "service", m.service)
      ∷ []

  -- the lines of one pod
  unfoldable pub metric_samples : PodMetrics F → List (Sample F)
  metric_samples m = map (sample (metric_labels m)) (
      (codes "koprobe_pod_cost_total", m.total_cost)
      ∷ (codes "koprobe_pod_cpu_cost", m.cpu_cost)
      ∷ (codes "koprobe_pod_memory_cost", m.memory_cost)
      ∷ (codes "koprobe_pod_network_cost", m.network_cost)
      ∷ (codes "koprobe_pod_disk_cost", m.disk_cost)
      ∷ (codes "koprobe_pod_wasted_dollars", m.wasted_dollars)
      ∷ (codes "koprobe_pod_cpu_util_pct", m.cpu_util_pct)
      ∷ [])

  -- the loop of `prometheus` from a total on, and its last line
  unfoldable pub scrape_from : F → List (PodMetrics F) → List (Sample F)
  unfolding metric_samples
  scrape_from total [] = sample [] (codes "koprobe_cluster_cost_total", total) ∷ []
  scrape_from total (m ∷ metrics) = metric_samples m ++ scrape_from (total ⊕ m.total_cost) metrics

  unfoldable pub prometheus : Store F → List (Sample F)
  unfolding scrape_from
  prometheus st = scrape_from nought st.latest

  scrape_from-eq :
      (total : F) (metrics : List (PodMetrics F))
      → scrape_from total metrics
        ≡ each metric_samples metrics
          ++ (sample []
                (codes "koprobe_cluster_cost_total", foldl (λ t m. t ⊕ m.total_cost) total metrics)
              ∷ [])
  unfolding scrape_from each
  scrape_from-eq total [] = refl
  scrape_from-eq total (m ∷ metrics) =
      ap (λ l. metric_samples m ++ l) (scrape_from-eq (total ⊕ m.total_cost) metrics)
      ∙ sym (append_assoc (metric_samples m) (each metric_samples metrics) _)

  -- what a query asks for
  abbrev pub asked : Text → Text → PodMetrics F → Bool
  asked team namespace m =
      (team == [] || m.team == team) && (namespace == [] || m.namespace == namespace)

  filter_metrics-eq-select :
      (team namespace : Text) (metrics : List (PodMetrics F))
      → filter_metrics team namespace metrics ≡ select (asked team namespace) metrics
  unfolding filter_metrics
  filter_metrics-eq-select team namespace [] = refl
  filter_metrics-eq-select team namespace (m ∷ metrics) =
      ground (arith, filter_metrics-eq-select team namespace metrics)

  by_pod-perm :
      (sorter : Sorter (PodMetrics F)) (team namespace : Text) (st : Store F)
      → Permᴰ (select (asked team namespace) st.latest) (by_pod sorter team namespace st)
  unfolding by_pod
  by_pod-perm sorter team namespace st =
      subst (λ pods. Permᴰ pods (by_pod sorter team namespace st))
        (filter_metrics-eq-select team namespace st.latest)
        (sorter.sort-perm (λ a b. b.total_cost ≺ a.total_cost)
          (filter_metrics team namespace st.latest))

  named-prometheus :
      (name : Text) (st : Store F)
      → named name (prometheus st)
        ≡ named name (each metric_samples st.latest)
          ++ named name (
              sample [] (codes "koprobe_cluster_cost_total", sum (λ m. m.total_cost) st.latest)
              ∷ [])
  unfolding prometheus sum
  named-prometheus name st =
      ap (named name) (scrape_from-eq nought st.latest)
      ∙ select-append (λ s. s.name == name) (each metric_samples st.latest) _

  metric_cost : PodMetrics F → Sample F
  metric_cost m = sample (metric_labels m) (codes "koprobe_pod_cost_total", m.total_cost)

  named-prometheus_pods :
      (st : Store F)
      → named (codes "koprobe_pod_cost_total") (prometheus st) ≡ map metric_cost st.latest
  unfolding metric_samples metric_cost
  named-prometheus_pods st =
      let name = codes "koprobe_pod_cost_total" in
      named-prometheus name st
      ∙ ap (λ l. l ++ [])
          (named-each name metric_samples (λ m. metric_cost m ∷ []) (λ m. refl) st.latest
            ∙ each-singleton metric_cost st.latest)
      ∙ append-nil (map metric_cost st.latest)

  named-prometheus_cluster :
      (st : Store F)
      → named (codes "koprobe_cluster_cost_total") (prometheus st)
        ≡ sample [] (codes "koprobe_cluster_cost_total", (summary st).total_cost) ∷ []
  unfolding metric_samples summary
  named-prometheus_cluster st =
      let name = codes "koprobe_cluster_cost_total" in
      named-prometheus name st
      ∙ ap (λ l. l ++ (sample [] (name, sum (λ m. m.total_cost) st.latest) ∷ []))
          (named-each name metric_samples (λ m. []) (λ m. refl) st.latest ∙ each-nil st.latest)

  -- The pages of one store agree. The page by pod is a rearrangement of the latest metrics of the team
  -- asked for, if one is, and of the namespace, if one is. The page for Prometheus has one sample of the
  -- cost for each of the latest metrics, in their order, and one of the cluster's cost, which is the
  -- total of the summary; no other sample has these two names.
  pub prometheus-summary-perm :
      (sorter : Sorter (PodMetrics F)) (team namespace : Text) (st : Store F)
      → Permᴰ (select (asked team namespace) st.latest) (by_pod sorter team namespace st)
        × (named (codes "koprobe_pod_cost_total") (prometheus st)
            ≡ map
                (λ m. sample (metric_labels m) (codes "koprobe_pod_cost_total", m.total_cost))
                st.latest)
        × (named (codes "koprobe_cluster_cost_total") (prometheus st)
            ≡ sample [] (codes "koprobe_cluster_cost_total", (summary st).total_cost) ∷ [])
  unfolding metric_cost
  prometheus-summary-perm sorter team namespace st =
      (by_pod-perm sorter team namespace st, named-prometheus_pods st, named-prometheus_cluster st)
