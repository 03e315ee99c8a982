-- ===== src/Prometheus.antt =====
-- internal/exporter/prometheus.go: what one scrape of `/metrics` writes, as a list of samples, one for
-- each line; Lines prints them, and Server has the routes.
pub mod Totals
pub mod Lines
pub mod Server
pub mod Serving
pub mod Reading
pub mod Pages
pub mod Served
pub mod Tests
use koprobe.Prelude.{ℕ, ◌^◌, ◌≡◌, Text, codes, List, [], ◌∷◌, ◌++◌, map}
use koprobe.Float.{Double, ◌⊗◌}
use koprobe.GoMap.Ranging.{Order}
use koprobe.Aggregator.{PodCost, TeamCost, Snapshot}

-- printed with `%f` or with `%d`
pub data Value (F : Type 0) : Type 0 where
  amount : F → Value F
  count : ℕ → Value F

pub record Sample (F : Type 0) : Type 0 where
  pub name : Text
  pub labels : List (Text × Text)
  pub value : Value F

-- the lines of each element, one element after the other
unfoldable pub each : {A B : Type 0} → (A → List B) → List A → List B
each f [] = []
each f (x ∷ xs) = f x ++ each f xs

module _ {F : Type 0} ⦃d : Double F⦄ where
  open d use {lit}

  abbrev pub sample : List (Text × Text) → Text × F → Sample F
  sample labels (name, x) = record { name = name; labels = labels; value = amount x }

  abbrev pub pod_labels : PodCost F → List (Text × Text)
  pod_labels cost =
      (codes "namespace", cost.namespace)
      ∷ (codes "pod", cost.pod_name)
      ∷ (codes "team", cost.team)
      ∷ (codes "service", cost.service)
      ∷ (codes "env", cost.environment)
      ∷ []

  -- the body of the loop over the pods
  unfoldable pub pod_samples : PodCost F → List (Sample F)
  pod_samples cost = map (sample (pod_labels cost)) (
      (codes "koprobe_pod_cost_total", cost.total_cost)
      ∷ (codes "koprobe_pod_cpu_cost", cost.cpu_cost)
      ∷ (codes "koprobe_pod_memory_cost", cost.memory_cost)
      ∷ (codes "koprobe_pod_network_cost", cost.network_cost)
      ∷ (codes "koprobe_pod_disk_cost", cost.disk_cost)
      ∷ (codes "koprobe_pod_wasted_dollars", cost.wasted_dollars)
      ∷ (codes "koprobe_pod_cpu_utilization_pct", cost.cpu_utilization_pct)
      ∷ (codes "koprobe_pod_network_egress_bytes", cost.network_egress_gb ⊗ lit (2 ^ 30) 0)
      ∷ (codes "koprobe_pod_network_internet_bytes", cost.network_internet_gb ⊗ lit (2 ^ 30) 0)
      ∷ [])

  -- the body of the loop over the teams
  unfoldable pub team_samples : Text × TeamCost F → List (Sample F)
  team_samples (team, tc) =
      let labels = (codes "team", team) ∷ [] in
      sample labels (codes "koprobe_team_cost_total", tc.total_cost)
      ∷ sample labels (codes "koprobe_team_wasted_dollars", tc.wasted_cost)
      ∷ record {
        name = codes "koprobe_team_pod_count";
        labels = labels;
        value = count tc.pod_count;
      }
      ∷ []

  unfoldable pub cluster_samples : Snapshot F → List (Sample F)
  cluster_samples snap = sample [] (codes "koprobe_cluster_cost_total", snap.total) ∷ []

  -- `handleMetrics`, on the latest snapshot
  unfoldable pub scrape : Order (Text × TeamCost F) → Snapshot F → List (Sample F)
  unfolding each pod_samples team_samples cluster_samples
  scrape order snap =
      each pod_samples snap.pod_costs
      ++ (each team_samples (order.visit snap.team_costs) ++ cluster_samples snap)
