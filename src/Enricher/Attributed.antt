-- ===== src/Enricher/Attributed.antt =====
-- What `Resolve` returns: metadata of a listed pod, complete enough to attribute a cost to.
use mathlib.Core.List.{Memᴰ}
use mathlib.Core.Path.{subst}
use koprobe.Prelude.{
  ℕ, ◌≡◌, ◌≢◌, refl, sym, ap, ◌∙◌, ◌==◌, nat_eq, text_eq, Text, codes, text_ne, All, All-append,
  All-imp, some, List, [], ◌∷◌, ok, Bool-cases, Option-cases, inl, inr,
}
use koprobe.GoMap.{lookup}
use koprobe.GoMap.Ranging.{last_for-All}
use koprobe.Enricher.{
  PodInfo, Pod, Files, Enricher, sanitize_container_id, label_or_default, resolve_cgroup_id,
  resolve, pod_info, sync_pods,
}
use koprobe.Enricher.Walk.{Found, resolve_cgroup_id_iff}
use koprobe.Enricher.Sync.{attributed, attributions, resolve-sync_pods}

-- The metadata are those of a pod of the listing and of one of its containers, whose identifier is
-- not empty, and the walk for that container found the cgroup.
pub record IsListed (files : Files) (pods : List Pod) (id : ℕ) (info : PodInfo) : Type 0 where
  pub pod : Pod
  pub listed : Memᴰ pod pods
  pub status : Text
  pub of_pod : Memᴰ status pod.container_statuses
  pub container_id_eq : info.container_id ≡ sanitize_container_id status
  pub not_empty : info.container_id ≢ []
  pub info_eq : info ≡ pod_info pod info.container_id id
  pub found : Found info.container_id id (files info.container_id)
  pub not_zero : id ≢ 0

module _ (files : Files) (pod : Pod) where
  abbrev Listed : List Text → ℕ × PodInfo → Type 0
  Listed statuses entry =
      (status : Text) × Memᴰ status statuses
      × (sanitize_container_id status ≢ [])
      × (entry.1 ≡ pod_info pod (sanitize_container_id status) entry.0)
      × (resolve_cgroup_id (files (sanitize_container_id status)) (sanitize_container_id status)
          ≡ some entry.0)

  attributed-Listed : (statuses : List Text) → All (Listed statuses) (attributed files pod statuses)
  unfolding attributed
  attributed-Listed [] = tt
  attributed-Listed (status ∷ statuses) =
      let id = sanitize_container_id status in
      let later =
        All-imp (Listed statuses) (Listed (status ∷ statuses)) (attributed files pod statuses)
          (λ x h. (h.0, Memᴰ.tail h.1, h.2, h.3, h.4)) (attributed-Listed statuses) in
      elim (Bool-cases (id == [])) [
        | inl e ↦ rw e later
        | inr e ↦ elim (Option-cases (resolve_cgroup_id (files id) id)) [
          | inl f ↦ rw (e, f) later
          | inr (n, f) ↦ rw (e, f) ((status, Memᴰ.head refl, text_ne id [] e, refl, f), later)
        ]
      ]

IsListed-pod_info :
    (files : Files) (pod : Pod) (pods : List Pod) (status : Text) (n : ℕ)
    → Memᴰ status pod.container_statuses
    → sanitize_container_id status ≢ []
    → resolve_cgroup_id (files (sanitize_container_id status)) (sanitize_container_id status)
      ≡ some n
    → IsListed files (pod ∷ pods) n (pod_info pod (sanitize_container_id status) n)
unfolding pod_info
IsListed-pod_info files pod pods status n m h r =
    let id = sanitize_container_id status in
    let (found, not_zero) = (resolve_cgroup_id_iff id (files id) n).0 r in
    record {
      pod = pod;
      listed = Memᴰ.head refl;
      status = status;
      of_pod = m;
      container_id_eq = refl;
      not_empty = h;
      info_eq = refl;
      found = found;
      not_zero = not_zero;
    }

attributions-IsListed :
    (files : Files) (pods : List Pod)
    → All (λ e. IsListed files pods e.0 e.1) (attributions files pods)
unfolding attributions
attributions-IsListed files [] = tt
attributions-IsListed files (pod ∷ pods) =
    All-append (λ e. IsListed files (pod ∷ pods) e.0 e.1)
      (attributed files pod pod.container_statuses) (attributions files pods)
      (All-imp (Listed files pod pod.container_statuses) (λ e. IsListed files (pod ∷ pods) e.0 e.1)
        (attributed files pod pod.container_statuses) (λ e h. first e h)
        (attributed-Listed files pod pod.container_statuses))
      (All-imp (λ e. IsListed files pods e.0 e.1) (λ e. IsListed files (pod ∷ pods) e.0 e.1)
        (attributions files pods) (λ e h. later e h) (attributions-IsListed files pods))
  where
    first :
        (e : ℕ × PodInfo)
        → Listed files pod pod.container_statuses e
        → IsListed files (pod ∷ pods) e.0 e.1
    first e h =
        subst (λ i. IsListed files (pod ∷ pods) e.0 i) (sym h.3)
          (IsListed-pod_info files pod pods h.0 e.0 h.1 h.2 h.4)

    later : (e : ℕ × PodInfo) → IsListed files pods e.0 e.1 → IsListed files (pod ∷ pods) e.0 e.1
    later e h = record {
      pod = h.pod;
      listed = Memᴰ.tail h.listed;
      status = h.status;
      of_pod = h.of_pod;
      container_id_eq = h.container_id_eq;
      not_empty = h.not_empty;
      info_eq = h.info_eq;
      found = h.found;
      not_zero = h.not_zero;
    }

-- Whatever cgroup a listing makes resolvable, its metadata are those of a listed pod, through one of
-- the pod's containers whose identifier is not empty and whose walk found that cgroup, not 0.
pub resolve-IsListed :
    (files : Files) (pods : List Pod) (e : Enricher) (id : ℕ) {info : PodInfo}
    → resolve (sync_pods files (ok pods) e).0 id ≡ some info
    → IsListed files pods id info
resolve-IsListed files pods e id h =
    last_for-All (λ e. IsListed files pods e.0 e.1) id (attributions files pods)
      (attributions-IsListed files pods) (sym (resolve-sync_pods files pods e id) ∙ h)

label_or_default-ne-nil :
    (labels : List (Text × Text)) (key default : Text)
    → default ≢ []
    → label_or_default labels key default ≢ []
unfolding label_or_default
label_or_default-ne-nil labels key default h = elim (Option-cases (lookup key labels)) [
  | inl e ↦ rw (e, label_or_default) h
  | inr (v, e) ↦ elim (Bool-cases (v == [])) [
    | inl b ↦ rw (e, label_or_default, b) h
    | inr b ↦ rw (e, label_or_default, b) (text_ne v [] b)
  ]
]

-- Every resolved pod has a team and an environment that are not empty, so no cost goes to a
-- nameless team.
pub resolve_team-ne-nil :
    (files : Files) (pods : List Pod) (e : Enricher) (id : ℕ) {info : PodInfo}
    → resolve (sync_pods files (ok pods) e).0 id ≡ some info
    → (info.team_label ≢ []) × (info.environment ≢ []) × (info.cgroup_id ≡ id)
unfolding pod_info
resolve_team-ne-nil files pods e id h =
    let l = resolve-IsListed files pods e id h in
    (
      λ q.
          label_or_default-ne-nil l.pod.labels (codes "app.kubernetes.io/team") (codes "unknown")
            (text_ne _ _ refl) (sym (ap (λ i. i.team_label) l.info_eq) ∙ q),
      λ q.
          label_or_default-ne-nil l.pod.labels (codes "environment") (codes "production")
            (text_ne _ _ refl) (sym (ap (λ i. i.environment) l.info_eq) ∙ q),
      ap (λ i. i.cgroup_id) l.info_eq,
    )
