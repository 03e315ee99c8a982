-- ===== src/Local/Served.antt =====
-- cmd/local/main.go: the page for Prometheus in every state of the program, as it is read.
mod Tests
use mathlib.Core.List.{Memᴰ}
use mathlib.Core.Path.{subst}
use koprobe.Prelude.{
  ◌≡◌, refl, sym, ap, ◌∙◌, ◌==◌, text_eq, nat_eq, Bool, true, false, arith, Text, codes, ℤ, All,
  All-append, All-map_inv, ◌&&◌, map, some, List, [], ◌∷◌, ◌++◌,
}
use koprobe.Float.{Double, ◌⊕◌}
use koprobe.GoMap.{lookup}
use koprobe.Local.{PodMetrics, Store, new_store}
use koprobe.Local.Queries.{metric_labels, metric_samples, scrape_from, prometheus, cors}
use koprobe.Local.Server.{Page, Reads, serve, routes}
use koprobe.Local.Simulate.{PodProfile}
use koprobe.Local.Simulate.Ticks.{Identity, measured, profiled}
use koprobe.Local.Cluster.{build_cluster, new_simulator}
use koprobe.Local.Loop.{Program, Round, launch, rounds, rounds-launch}
use koprobe.Prometheus.{Value, Sample, each, sample}
use koprobe.Prometheus.Reading.{IsWord, IsValue, IsLabel, word, lacks, read_page}
use koprobe.Prometheus.Pages.{told, IsPlain, All-each, read_page-samples}
use koprobe.Prometheus.Server.{write_samples}
use koprobe.Web.{Request, Response, Handler, fresh, serve_mux}

-- the header that lets every origin read an answer
abbrev pub origin : Text × Text
origin = (codes "Access-Control-Allow-Origin", codes "*")

unfoldable is_value : Text → Bool
is_value v = lacks 10 v && lacks 34 v

-- no name that is a label has a quote or a line feed in it
unfoldable is_readable : Identity → Bool
unfolding is_value
is_readable (pod, namespace, team, service, _, _) =
    is_value namespace && (is_value pod && (is_value team && is_value service))

module _ {F : Type 0} ⦃d : Double F⦄ (digits : Value F → Text)
    (plain : (v : Value F) → IsWord (digits v)) where
  metric_samples-IsPlain :
      (m : PodMetrics F) → is_readable (measured m) ≡ true → All (IsPlain digits) (metric_samples m)
  unfolding metric_samples lacks is_readable is_value
  metric_samples-IsPlain m h =
      let labels : All IsLabel (metric_labels m) = (
        (word, (ground arith, ground arith)),
        (
          (word, (ground arith, ground arith)),
          ((word, (ground arith, ground arith)), ((word, (ground arith, ground arith)), tt)),
        ),
      ) in
      (
        (word, labels, plain _),
        (
          (word, labels, plain _),
          (
            (word, labels, plain _),
            (
              (word, labels, plain _),
              ((word, labels, plain _), ((word, labels, plain _), ((word, labels, plain _), tt))),
            ),
          ),
        ),
      )

  scrape_from-IsPlain :
      (total : F) (metrics : List (PodMetrics F))
      → All (λ m. is_readable (measured m) ≡ true) metrics
      → All (IsPlain digits) (scrape_from total metrics)
  unfolding scrape_from lacks
  scrape_from-IsPlain total [] h = ((word, tt, plain _), tt)
  scrape_from-IsPlain total (m ∷ metrics) h =
      All-append (IsPlain digits) (metric_samples m) _ (metric_samples-IsPlain m h.0)
        (scrape_from-IsPlain (total ⊕ m.total_cost) metrics h.1)

  module _ {R : Type 0} (draw : R → F × R) (sin : F → F) where
    names_readable :
        (now : ℤ) (rng : R) (rs : List (Round F))
        → All
            (λ m. is_readable (measured m) ≡ true)
            (rounds draw sin rs (launch draw sin now rng)).store.latest
    names_readable now rng [] = unfold rounds launch new_store in tt
    names_readable now rng (r ∷ rs) =
        All-map_inv (λ i. is_readable i ≡ true) measured _
          (subst (λ (l : List Identity). All (λ i. is_readable i ≡ true) l)
            (sym (rounds-launch draw sin now rng r rs).0)
            (unfold build_cluster is_readable is_value lacks in
              (
                refl,
                (
                  refl,
                  (
                    refl,
                    (
                      refl,
                      (refl, (refl, (refl, (refl, (refl, (refl, (refl, (refl, (refl, tt))))))))),
                    ),
                  ),
                ),
              )))

  serve-metrics_page :
      (encode : Page F → Text) (r : Reads F) (st : Store F) (unmatched : Handler) (req : Request)
      → (req.method == codes "OPTIONS") ≡ false
      → req.path ≡ codes "/metrics"
      → serve encode digits r st unmatched req
        ≡ write_samples digits (prometheus st) (record fresh { headers = origin ∷ [] })
  unfolding serve cors serve_mux routes lookup
  serve-metrics_page encode r st unmatched req method path = rw (serve, method, path) refl

  module _ {R : Type 0} (draw : R → F × R) (sin : F → F) where
    -- After any number of rounds of the simulator, the answer to a request for `/metrics`, by any method
    -- but OPTIONS, has the status 200 and the header that lets every origin read it, and its text is read
    -- back as what the samples of the store say, in their order: every name, every label and all
    -- digits. This holds if digits have none of the characters that separate the parts of a line.
    pub read_page-rounds :
        (encode : Page F → Text) (reads : Reads F) (now : ℤ) (rng : R) (rs : List (Round F))
        (unmatched : Handler) (req : Request)
        → (req.method == codes "OPTIONS") ≡ false
        → req.path ≡ codes "/metrics"
        → ((serve encode digits reads
              (rounds draw sin rs (launch draw sin now rng)).store
              unmatched
              req).status
            ≡ 200)
          × Memᴰ origin
              (serve encode digits reads
                (rounds draw sin rs (launch draw sin now rng)).store
                unmatched
                req).headers
          × (read_page
                (serve encode digits reads
                  (rounds draw sin rs (launch draw sin now rng)).store
                  unmatched
                  req).body
              ≡ some (
                  map
                    (told digits)
                    (prometheus (rounds draw sin rs (launch draw sin now rng)).store)))
    unfolding write_samples prometheus
    read_page-rounds encode reads now rng rs unmatched req method path =
        let st = (rounds draw sin rs (launch draw sin now rng)).store in
        let same = serve-metrics_page encode reads st unmatched req method path in
        let names = names_readable draw sin now rng rs in
        (
          ap (λ w. w.status) same,
          subst (λ (w : Response). Memᴰ origin w.headers) (sym same) (Memᴰ.head refl),
          ap (λ w. read_page w.body) same
              ∙ read_page-samples digits (prometheus st) (scrape_from-IsPlain _ st.latest names),
        )
