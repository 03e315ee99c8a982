-- ===== src/Prometheus/Totals.antt =====
-- The samples of costs in a scrape against the pods of the snapshot.
use koprobe.Prelude.{
  ◌≡◌, refl, ap, ◌∙◌, ◌==◌, text_eq, Bool, Text, codes, ℤ, select, select-append, map, List, [],
  ◌∷◌, ◌++◌,
}
use mathlib.Core.List.{append-nil}
use mathlib.Core.Path.{ap₂}
use koprobe.Float.{Double}
use koprobe.Float.Sums.{sum}
use koprobe.GoMap.Ranging.{Order}
use koprobe.Aggregator.{PodCost, TeamCost, Snapshot, build_snapshot}
use koprobe.Aggregator.Teams.{build_snapshot-Summarises}
use koprobe.Prometheus.{
  Sample, each, sample, pod_labels, pod_samples, team_samples, cluster_samples, scrape,
}

module _ {F : Type 0} ⦃d : Double F⦄ where
  -- the samples of a name
  abbrev pub named : Text → List (Sample F) → List (Sample F)
  named name = select (λ s. s.name == name)

  pub named-each :
      {A : Type 0} (name : Text) (f : A → List (Sample F)) (g : A → List (Sample F))
      → ((x : A) → named name (f x) ≡ g x)
      → (xs : List A) → named name (each f xs) ≡ each g xs
  unfolding each
  named-each name f g h [] = refl
  named-each name f g h (x ∷ xs) =
      select-append (λ s. s.name == name) (f x) (each f xs)
      ∙ ap₂ (λ a b. a ++ b) (h x) (named-each name f g h xs)

  pub each-singleton :
      {A : Type 0} (f : A → Sample F) (xs : List A) → each (λ x. f x ∷ []) xs ≡ map f xs
  unfolding each
  each-singleton f [] = refl
  each-singleton f (x ∷ xs) = ap (◌∷◌ (f x)) (each-singleton f xs)

  pub each-nil : {A : Type 0} (xs : List A) → each {B = Sample F} (λ (x : A). []) xs ≡ []
  unfolding each
  each-nil [] = refl
  each-nil (x ∷ xs) = each-nil xs

  pub named-scrape :
      (name : Text) (order : Order (Text × TeamCost F)) (snap : Snapshot F)
      → named name (scrape order snap)
        ≡ named name (each pod_samples snap.pod_costs)
          ++ (named name (each team_samples (order.visit snap.team_costs))
              ++ named name (cluster_samples snap))
  unfolding scrape
  named-scrape name order snap =
      let test : Sample F → Bool = λ s. s.name == name in
      select-append test (each pod_samples snap.pod_costs) _
      ∙ ap (λ l. named name (each pod_samples snap.pod_costs) ++ l)
          (select-append test (each team_samples (order.visit snap.team_costs))
            (cluster_samples snap))

  abbrev pub pod_sample : PodCost F → Sample F
  pod_sample c = sample (pod_labels c) (codes "koprobe_pod_cost_total", c.total_cost)

  pub named-scrape_pods :
      (order : Order (Text × TeamCost F)) (snap : Snapshot F)
      → named (codes "koprobe_pod_cost_total") (scrape order snap) ≡ map pod_sample snap.pod_costs
  unfolding pod_samples team_samples cluster_samples
  named-scrape_pods order snap =
      let name = codes "koprobe_pod_cost_total" in
      let teams = order.visit snap.team_costs in
      named-scrape name order snap
      ∙ ap₂ (λ a b. a ++ (b ++ []))
          (named-each name pod_samples (λ c. pod_sample c ∷ []) (λ c. refl) snap.pod_costs
            ∙ each-singleton pod_sample snap.pod_costs)
          (named-each name team_samples (λ t. []) (λ t. refl) teams ∙ each-nil teams)
      ∙ append-nil (map pod_sample snap.pod_costs)

  abbrev pub team_sample : Text × TeamCost F → Sample F
  team_sample (team, tc) =
      sample ((codes "team", team) ∷ []) (codes "koprobe_team_cost_total", tc.total_cost)

  pub named-scrape_teams :
      (order : Order (Text × TeamCost F)) (snap : Snapshot F)
      → named (codes "koprobe_team_cost_total") (scrape order snap)
        ≡ map team_sample (order.visit snap.team_costs)
  unfolding pod_samples team_samples cluster_samples
  named-scrape_teams order snap =
      let name = codes "koprobe_team_cost_total" in
      let teams = order.visit snap.team_costs in
      named-scrape name order snap
      ∙ ap₂ (λ a b. a ++ (b ++ []))
          (named-each name pod_samples (λ c. []) (λ c. refl) snap.pod_costs
            ∙ each-nil snap.pod_costs)
          (named-each name team_samples (λ t. team_sample t ∷ []) (λ t. refl) teams
            ∙ each-singleton team_sample teams)
      ∙ append-nil (map team_sample teams)

  pub named-scrape_cluster :
      (order : Order (Text × TeamCost F)) (snap : Snapshot F)
      → named (codes "koprobe_cluster_cost_total") (scrape order snap)
        ≡ sample [] (codes "koprobe_cluster_cost_total", snap.total) ∷ []
  unfolding pod_samples team_samples cluster_samples
  named-scrape_cluster order snap =
      let name = codes "koprobe_cluster_cost_total" in
      let teams = order.visit snap.team_costs in
      named-scrape name order snap
      ∙ ap₂ (λ a b. a ++ (b ++ (sample [] (name, snap.total) ∷ [])))
          (named-each name pod_samples (λ c. []) (λ c. refl) snap.pod_costs
            ∙ each-nil snap.pod_costs)
          (named-each name team_samples (λ t. []) (λ t. refl) teams ∙ each-nil teams)

  -- A scrape of a snapshot of given pods has one sample of the cost for each pod, in their order, with
  -- the pod's labels, and one sample of the cluster's cost, which is the sum of those costs in that
  -- order; no other sample has these two names.
  pub scrape-sum :
      (order : Order (Text × TeamCost F)) (now : ℤ) (costs : List (PodCost F))
      → (named (codes "koprobe_pod_cost_total") (scrape order (build_snapshot now costs))
          ≡ map (λ c. sample (pod_labels c) (codes "koprobe_pod_cost_total", c.total_cost)) costs)
        × (named (codes "koprobe_cluster_cost_total") (scrape order (build_snapshot now costs))
            ≡ sample [] (codes "koprobe_cluster_cost_total", sum (λ c. c.total_cost) costs) ∷ [])
  scrape-sum order now costs =
      let snap = build_snapshot now costs in
      let made = build_snapshot-Summarises now costs in
      (
        named-scrape_pods order snap ∙ ap (map pod_sample) made.pods_eq,
        named-scrape_cluster order snap
            ∙ ap (λ t. sample [] (codes "koprobe_cluster_cost_total", t) ∷ []) made.total_eq,
      )
