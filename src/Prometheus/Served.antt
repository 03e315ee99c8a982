-- ===== src/Prometheus/Served.antt =====
-- The answer of the server for `/metrics` against the samples of the scrape.
use koprobe.Prelude.{
  ◌≡◌, refl, ap, ◌∙◌, nat_eq, text_eq, Text, codes, All, All-append, All-imp, map, some, [], ◌∷◌, ℤ,
}
use koprobe.Prometheus.{Value, each, scrape}
use koprobe.Float.{Double}
use koprobe.GoMap.{lookup}
use koprobe.GoMap.Ranging.{Order}
use koprobe.GoMap.Values.{All-perm}
use koprobe.Aggregator.{PodCost, TeamCost, Aggregator, Snapshot, latest_snapshot}
use koprobe.Prometheus.{pod_labels, pod_samples, team_samples, cluster_samples}
use koprobe.Prometheus.Server.{serve, handle_metrics, write_samples}
use koprobe.Prometheus.Pages.{All-each, told, IsPlain, read_page-samples}
use koprobe.Web.{Request, Handler, fresh, serve_mux}
use koprobe.Prometheus.Reading.{word, lacks, IsWord, IsValue, IsLabel, read_page}

module _ {F : Type 0} ⦃d : Double F⦄ where
  -- no value of a label of a pod has a quote or a line feed in it
  abbrev pub IsReadablePod : PodCost F → Type 0
  IsReadablePod c = All (λ l. IsValue l.1) (pod_labels c)

  abbrev pub IsReadableTeam : Text × TeamCost F → Type 0
  IsReadableTeam x = IsValue x.0

module _ {F : Type 0} ⦃d : Double F⦄ (digits : Value F → Text) where
  pub serve-metrics :
      (order : Order (Text × TeamCost F)) (now : ℤ) (a : Aggregator F) (unmatched : Handler)
      (req : Request)
      → req.path ≡ codes "/metrics"
      → serve digits order now a unmatched req
        ≡ write_samples digits (scrape order (latest_snapshot now a)) fresh
  unfolding serve serve_mux lookup handle_metrics
  serve-metrics order now a unmatched req path = rw (serve, path) refl

module _ {F : Type 0} ⦃d : Double F⦄ (digits : Value F → Text)
    (plain : (v : Value F) → IsWord (digits v)) where
  pod_samples-IsPlain : (c : PodCost F) → IsReadablePod c → All (IsPlain digits) (pod_samples c)
  unfolding pod_samples lacks
  pod_samples-IsPlain c (n, (p, (t, (s, (e, _))))) =
      let labels : All IsLabel (pod_labels c) =
        ((word, n), ((word, p), ((word, t), ((word, s), ((word, e), tt))))) in
      (
        (word, labels, plain _),
        (
          (word, labels, plain _),
          (
            (word, labels, plain _),
            (
              (word, labels, plain _),
              (
                (word, labels, plain _),
                (
                  (word, labels, plain _),
                  (
                    (word, labels, plain _),
                    ((word, labels, plain _), ((word, labels, plain _), tt)),
                  ),
                ),
              ),
            ),
          ),
        ),
      )

  team_samples-IsPlain :
      (x : Text × TeamCost F) → IsReadableTeam x → All (IsPlain digits) (team_samples x)
  unfolding team_samples lacks
  team_samples-IsPlain x h =
      let labels : All IsLabel ((codes "team", x.0) ∷ []) = ((word, h), tt) in
      ((word, labels, plain _), ((word, labels, plain _), ((word, labels, plain _), tt)))

  scrape-IsPlain :
      (order : Order (Text × TeamCost F)) (snap : Snapshot F)
      → All IsReadablePod snap.pod_costs
      → All IsReadableTeam snap.team_costs
      → All (IsPlain digits) (scrape order snap)
  unfolding scrape cluster_samples lacks
  scrape-IsPlain order snap pods teams =
      All-append (IsPlain digits) (each pod_samples snap.pod_costs) _
        (All-each (IsPlain digits) pod_samples snap.pod_costs
          (All-imp IsReadablePod _ snap.pod_costs pod_samples-IsPlain pods))
        (All-append (IsPlain digits) (each team_samples (order.visit snap.team_costs)) _
          (All-each (IsPlain digits) team_samples (order.visit snap.team_costs) (
            All-imp IsReadableTeam _ (order.visit snap.team_costs) team_samples-IsPlain
              (All-perm IsReadableTeam (order.visit-perm snap.team_costs) teams)))
          ((word, tt, plain _), tt))

  -- The answer to a request for `/metrics` has the status 200, and its text is read back as what the
  -- samples of the scrape say, in their order: every name, every label and all digits. This holds if
  -- digits have none of the characters that separate the parts of a line, and no name of a pod, a
  -- namespace, a team, a service or an environment has a quote or a line feed in it.
  pub read_page-serve :
      (order : Order (Text × TeamCost F)) (now : ℤ) (a : Aggregator F) (unmatched : Handler)
      (req : Request)
      → req.path ≡ codes "/metrics"
      → All IsReadablePod (latest_snapshot now a).pod_costs
      → All IsReadableTeam (latest_snapshot now a).team_costs
      → ((serve digits order now a unmatched req).status ≡ 200)
        × (read_page (serve digits order now a unmatched req).body
            ≡ some (map (told digits) (scrape order (latest_snapshot now a))))
  unfolding write_samples
  read_page-serve order now a unmatched req path pods teams =
      let snap = latest_snapshot now a in
      let same = serve-metrics digits order now a unmatched req path in
      (
        ap (λ w. w.status) same,
        ap (λ w. read_page w.body) same
            ∙ read_page-samples digits (scrape order snap) (scrape-IsPlain order snap pods teams),
      )
