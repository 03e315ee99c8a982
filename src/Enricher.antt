-- ===== src/Enricher.antt =====
-- internal/enricher/k8s.go: from a cgroup's identifier to the pod that it belongs to.
-- The Kubernetes client and the cgroup file system are arguments: what a listing of the pods
-- returns, and the directory entries that a walk meets. `New`, `syncPods` and `Resolve` are atomic
-- steps under the lock. A `PodInfo` stands in both maps by one pointer and is complete before either
-- map is published, so it is a value here.
pub mod ContainerId
pub mod Walk
pub mod Sync
pub mod Attributed
pub mod Syncing
pub mod Tests
use koprobe.Prelude.{
  ℕ, zero, suc, ◌≡◌, Bool, true, false, ◌&&◌, ◌||◌, not, ◌==◌, nat_eq, text_eq, Text, codes, ltb,
  nat_beq, length, take, drop, Option, none, some, List, [], ◌∷◌, ◌++◌, foldl, Result, ok, err,
  if◌then◌else◌,
}
use koprobe.GoMap.{Map, lookup, insert}

pub record PodInfo : Type 0 where
  pub pod_name : Text
  pub namespace : Text
  pub node_name : Text
  pub team_label : Text
  pub service_label : Text
  pub feature_label : Text
  pub cost_center : Text
  pub environment : Text
  pub cgroup_id : ℕ
  pub container_id : Text

-- What the program reads of a pod in the listing; a status is its container's identifier.
pub record Pod : Type 0 where
  pub name : Text
  pub namespace : Text
  pub node_name : Text
  pub labels : Map Text Text
  pub container_statuses : List Text

-- One callback of the walk: `failed` is its error argument, and `id_file` is what opening
-- `cgroup.id` gives: nothing, or the number that `Sscanf` reads from the first line, 0 if none.
pub record Entry : Type 0 where
  pub path : Text
  pub failed : Bool
  pub is_dir : Bool
  pub id_file : Option ℕ

-- `strings.HasPrefix` and `strings.Contains`
unfoldable pub has_prefix : Text → Text → Bool
has_prefix s [] = true
has_prefix [] (_ ∷ _) = false
has_prefix (c ∷ s) (p ∷ prefix) = nat_beq c p && has_prefix s prefix

unfoldable pub contains : Text → Text → Bool
unfolding has_prefix
contains [] sub = has_prefix [] sub
contains (c ∷ s) sub = has_prefix (c ∷ s) sub || contains s sub

-- `strings.TrimPrefix`
unfoldable pub trim_prefix : Text → Text → Text
unfolding has_prefix
trim_prefix s prefix = if has_prefix s prefix then drop (length prefix) s else s

abbrev pub runtimes : List Text
runtimes = codes "docker://" ∷ codes "containerd://" ∷ codes "cri-o://" ∷ []

-- the first 12 characters
unfoldable pub shorten : Text → Text
shorten id = if ltb 12 (length id) then take 12 id else id

unfoldable pub sanitize_container_id : Text → Text
sanitize_container_id id = shorten (foldl trim_prefix id runtimes)

unfoldable pub label_or_default : Map Text Text → Text → Text → Text
label_or_default labels key default = elim (lookup key labels) [
  | none ↦ default
  | some v ↦ if v == [] then default else v
]

-- The walk: the number that `cgroupID` holds at its end.
unfoldable pub walk : Text → List Entry → ℕ
walk id [] = 0
walk id (e ∷ es) =
    let rest = walk id es in
    if e.failed || not e.is_dir
    then rest
    else if not (contains e.path id)
    then rest
    else elim e.id_file [ none ↦ rest | some n ↦ n ]

-- `none` is the error.
unfoldable pub resolve_cgroup_id : List Entry → Text → Option ℕ
resolve_cgroup_id entries id =
    let found = walk id entries in if found == 0 then none else some found

pub record Enricher : Type 0 where
  pub cgroup_to_pod : Map ℕ PodInfo
  pub container_to_pod : Map Text PodInfo

-- `Resolve`; `none` is nil
unfoldable pub resolve : Enricher → ℕ → Option PodInfo
resolve e id = lookup id e.cgroup_to_pod

-- `cgroup_id` stays 0 where the container's cgroup is not found
unfoldable pub pod_info : Pod → Text → ℕ → PodInfo
unfolding label_or_default
pod_info pod container_id cgroup_id = record {
  pod_name = pod.name;
  namespace = pod.namespace;
  node_name = pod.node_name;
  team_label = label_or_default pod.labels (codes "app.kubernetes.io/team") (codes "unknown");
  service_label = label_or_default pod.labels (codes "app.kubernetes.io/name") pod.name;
  feature_label = label_or_default pod.labels (codes "feature") [];
  cost_center = label_or_default pod.labels (codes "billing/cost-center") [];
  environment = label_or_default pod.labels (codes "environment") (codes "production");
  cgroup_id = cgroup_id;
  container_id = container_id;
}

-- The entries that the walk for a container meets.
abbrev pub Files : Type 0
Files = Text → List Entry

-- the body of the inner loop, after `sanitizeContainerID`
unfoldable pub add_resolved : Pod → Text → Option ℕ → Enricher → Enricher
add_resolved pod id none e = record e {
  container_to_pod = insert id (pod_info pod id 0) e.container_to_pod;
}
add_resolved pod id (some cgroup) e = record {
  cgroup_to_pod = insert cgroup (pod_info pod id cgroup) e.cgroup_to_pod;
  container_to_pod = insert id (pod_info pod id cgroup) e.container_to_pod;
}

unfoldable pub add_container : Files → Pod → Enricher → Text → Enricher
unfolding add_resolved
add_container files pod e status =
    let id = sanitize_container_id status in
    if id == [] then e else add_resolved pod id (resolve_cgroup_id (files id) id) e

unfoldable pub add_pod_containers : Files → Enricher → Pod → Enricher
unfolding add_container
add_pod_containers files e pod = foldl (add_container files pod) e pod.container_statuses

abbrev pub no_pods : Enricher
no_pods = record { cgroup_to_pod = []; container_to_pod = [] }

-- `syncPods` after the listing: the enricher, and the error if there is one
unfoldable pub sync_pods : Files → Result (List Pod) → Enricher → Enricher × Option Text
unfolding add_pod_containers
sync_pods files (ok pods) e = (foldl (add_pod_containers files) no_pods pods, none)
sync_pods files (err message) e = (e, some (codes "list pods: " ++ message))

-- the choice of `New` between the configuration of the cluster and that of a file
unfoldable pub read_config :
    Result (Unit {0}) → (Text → Result (Unit {0})) → Text → Result (Unit {0})
read_config in_cluster from_file kubeconfig =
    if kubeconfig == [] then in_cluster else from_file kubeconfig

-- `New`, from the outcomes of making the configuration and the client, and of the first listing
unfoldable pub new_enricher :
    Result (Unit {0}) → Result (Unit {0}) → Files → Result (List Pod) → Result Enricher
unfolding sync_pods
new_enricher (err message) client files pods = err (codes "k8s config: " ++ message)
new_enricher (ok _) (err message) files pods = err (codes "k8s client: " ++ message)
new_enricher (ok _) (ok _) files pods =
    let (e, failure) = sync_pods files pods no_pods in
    elim failure [ none ↦ ok e | some message ↦ err (codes "initial pod sync: " ++ message) ]
