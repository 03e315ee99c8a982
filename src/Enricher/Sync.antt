-- ===== src/Enricher/Sync.antt =====
-- `syncPods` and `Resolve`: what a cgroup resolves to after a listing.
use koprobe.Prelude.{
  ℕ, ◌≡◌, refl, sym, ap, ◌∙◌, ◌==◌, nat_eq, text_eq, Text, none, some, List, [], ◌∷◌, ◌++◌, foldl,
  ok, arith, if◌then◌else◌,
}
use koprobe.GoMap.{lookup}
use koprobe.GoMap.Ranging.{insert_all, insert_all-append, last_for, lookup-insert_all_last}
use koprobe.Enricher.{
  PodInfo, Pod, Files, Enricher, no_pods, sanitize_container_id, resolve_cgroup_id, resolve,
  pod_info, add_container, add_pod_containers, sync_pods,
}

-- The containers of a pod that have an identifier and a cgroup: the cgroup and the pod's metadata.
unfoldable pub attributed : Files → Pod → List Text → List (ℕ × PodInfo)
attributed files pod [] = []
attributed files pod (status ∷ statuses) =
    let id = sanitize_container_id status in
    let rest = attributed files pod statuses in
    if id == [] then rest else elim (resolve_cgroup_id (files id) id) [
      | none ↦ rest
      | some cgroup ↦ (cgroup, pod_info pod id cgroup) ∷ rest
    ]

-- The same for a whole listing, in its order.
unfoldable pub attributions : Files → List Pod → List (ℕ × PodInfo)
attributions files [] = []
attributions files (pod ∷ pods) =
    attributed files pod pod.container_statuses ++ attributions files pods

cgroups-add_containers :
    (files : Files) (pod : Pod) (statuses : List Text) (e : Enricher)
    → (foldl (add_container files pod) e statuses).cgroup_to_pod
      ≡ insert_all e.cgroup_to_pod (attributed files pod statuses)
unfolding attributed insert_all
cgroups-add_containers files pod [] e = refl
cgroups-add_containers files pod (status ∷ statuses) e =
    cgroups-add_containers files pod statuses (add_container files pod e status)
    ∙ (unfold add_container in ground arith)

cgroups-add_pod_containers :
    (files : Files) (pod : Pod) (e : Enricher)
    → (add_pod_containers files e pod).cgroup_to_pod
      ≡ insert_all e.cgroup_to_pod (attributed files pod pod.container_statuses)
unfolding add_pod_containers
cgroups-add_pod_containers files pod e = cgroups-add_containers files pod pod.container_statuses e

cgroups-add_pods :
    (files : Files) (pods : List Pod) (e : Enricher)
    → (foldl (add_pod_containers files) e pods).cgroup_to_pod
      ≡ insert_all e.cgroup_to_pod (attributions files pods)
unfolding attributions
cgroups-add_pods files [] e = unfold insert_all in refl
cgroups-add_pods files (pod ∷ pods) e =
    cgroups-add_pods files pods (add_pod_containers files e pod)
    ∙ ap (λ m. insert_all m (attributions files pods)) (cgroups-add_pod_containers files pod e)
    ∙ sym (
        insert_all-append e.cgroup_to_pod (attributed files pod pod.container_statuses)
          (attributions files pods))

-- After a listing a cgroup resolves to the last container of the listing that has it, and to no pod
-- if none has; nothing is left of earlier listings.
pub resolve-sync_pods :
    (files : Files) (pods : List Pod) (e : Enricher) (id : ℕ)
    → resolve (sync_pods files (ok pods) e).0 id ≡ last_for id (attributions files pods)
unfolding resolve sync_pods
resolve-sync_pods files pods e id =
    ap (lookup id) (cgroups-add_pods files pods no_pods)
    ∙ lookup-insert_all_last id [] (attributions files pods)
    ∙ (unfold lookup in ground arith)
