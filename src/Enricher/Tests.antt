-- ===== src/Enricher/Tests.antt =====
-- A small cluster listed twice, and the enricher's theorems at it.
use koprobe.Prelude.{
  ℕ, ◌≡◌, ◌≢◌, ◌↔◌, refl, true, false, nat_eq, text_eq, Text, codes, none, some, List, [], ◌∷◌,
  ◌++◌, ok, err,
}
use koprobe.GoMap.{lookup, insert}
use koprobe.GoMap.Ranging.{last_for}
use koprobe.Enricher.{
  Enricher, Pod, Entry, Files, no_pods, contains, trim_prefix, shorten, sanitize_container_id, walk,
  resolve_cgroup_id, resolve, pod_info, sync_pods, new_enricher,
}
use koprobe.Enricher.Walk.{Found, resolve_cgroup_id_iff}
use koprobe.Enricher.Sync.{attributions, resolve-sync_pods}
use koprobe.Tickers.{Signal, done, tick}
use koprobe.Tickers.Rounds.{is_done, ticks_before, stands}
use koprobe.Enricher.Syncing.{Listing, start_sync, last_listed, resolved_by, start_sync-returns}
use koprobe.Enricher.Attributed.{IsListed, resolve-IsListed}

abbrev hash : Text
hash = codes "4f3a9c0b12de77aa"

abbrev short : Text
short = codes "4f3a9c0b12de"

abbrev web : Pod
web = record {
  name = codes "web-1";
  namespace = codes "shop";
  node_name = codes "n1";
  labels = (codes "feature", codes "home") ∷ [];
  container_statuses = (codes "containerd://" ++ hash) ∷ [] ∷ [];
}

-- a directory that does not open, then the container's, then one that the walk does not reach
abbrev tree : List Entry
tree =
    record { path = codes "/k/4f3a9c0b12de/x"; failed = false; is_dir = true; id_file = none }
    ∷ record {
      path = codes "/k/4f3a9c0b12de77aa";
      failed = false;
      is_dir = true;
      id_file = some 42;
    }
    ∷ record { path = codes "/k/4f3a9c0b12de"; failed = false; is_dir = true; id_file = some 43 }
    ∷ []

abbrev files : Files
files id = tree

web_id : sanitize_container_id (codes "containerd://" ++ hash) ≡ short
unfolding sanitize_container_id shorten trim_prefix
web_id = refl

web_cgroup : resolve_cgroup_id tree short ≡ some 42
unfolding resolve_cgroup_id walk contains
web_cgroup = refl

web_info : resolve (sync_pods files (ok (web ∷ [])) no_pods).0 42 ≡ some (pod_info web short 42)
unfolding sync_pods resolve lookup insert sanitize_container_id shorten trim_prefix
    resolve_cgroup_id walk contains
web_info = refl

web_labels : (pod_info web short 42).team_label ≡ codes "unknown"
unfolding pod_info lookup
web_labels = refl

-- A listing that fails at the start is an error of `New`.
no_cluster :
    new_enricher (ok tt) (ok tt) files (err (codes "denied"))
    ≡ err (codes "initial pod sync: list pods: denied")
unfolding new_enricher
no_cluster = refl

resolve_cgroup_id_iff_example :
    (resolve_cgroup_id tree short ≡ some 42) ↔ (Found short 42 tree × (◌≢◌ {A = ℕ} 42 0))
resolve_cgroup_id_iff_example = resolve_cgroup_id_iff short tree 42

resolve-sync_pods_example :
    resolve (sync_pods files (ok (web ∷ [])) no_pods).0 42
    ≡ last_for 42 (attributions files (web ∷ []))
resolve-sync_pods_example = resolve-sync_pods files (web ∷ []) no_pods 42

resolve-IsListed_example : IsListed files (web ∷ []) 42 (pod_info web short 42)
resolve-IsListed_example = resolve-IsListed files (web ∷ []) no_pods 42 web_info

-- one listing, one that fails, the end of the context, and a tick that comes too late
abbrev signals : List (Signal (Unit {0}) Listing)
signals =
    tick (record { files = files; pods = ok (web ∷ []) })
    ∷ tick (record { files = files; pods = err (codes "timeout") })
    ∷ done
    ∷ tick (record { files = files; pods = ok [] })
    ∷ []

start_sync-returns_example :
    (b : Enricher) × (start_sync signals no_pods ≡ stands signals b)
    × ((id : ℕ) → resolve b id ≡ resolved_by no_pods (last_listed (ticks_before signals)) id)
start_sync-returns_example = start_sync-returns signals no_pods

ended : is_done signals ≡ true
unfolding is_done
ended = refl

only_listing : last_listed (ticks_before signals) ≡ some (files, web ∷ [])
unfolding last_listed ticks_before
only_listing = refl
