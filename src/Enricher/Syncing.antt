-- ===== src/Enricher/Syncing.antt =====
-- `StartSync`: the loop that lists the pods at every tick until its context ends, and drops the error
-- of a listing. Other goroutines only read the maps.
use koprobe.Prelude.{
  ℕ, ◌≡◌, refl, sym, ap, ◌∙◌, Text, nat_eq, Result, ok, err, Option, none, some, List, [], ◌∷◌,
  ◌++◌,
}
use koprobe.GoMap.Ranging.{last_for}
use koprobe.Enricher.{Pod, PodInfo, Enricher, Files, resolve, sync_pods}
use koprobe.Enricher.Sync.{attributions, resolve-sync_pods}
use koprobe.Tickers.{Signal, Progress, loop}
use koprobe.Tickers.Rounds.{ticks_before, stands, loop-stands}

-- What a tick finds: the cgroup files, and the outcome of the listing.
pub record Listing : Type 0 where
  pub files : Files
  pub pods : Result (List Pod)

abbrev sync_on : Listing → Enricher → Option Enricher
sync_on l e = some (sync_pods l.files l.pods e).0

abbrev nobody : Unit {0} → Enricher → Enricher
nobody _ e = e

unfoldable pub start_sync : List (Signal (Unit {0}) Listing) → Enricher → Progress Enricher
start_sync signals e = loop nobody sync_on signals e

-- what the last listing that succeeded had
unfoldable pub last_listed : List Listing → Option (Files × List Pod)
last_listed [] = none
last_listed (l ∷ ls) = elim (last_listed ls) [
  | some found ↦ some found
  | none ↦ elim l.pods [ ok pods ↦ some (l.files, pods) | err message ↦ none ]
]

-- the pod of a cgroup, by the listing if there is one
abbrev pub resolved_by : Enricher → Option (Files × List Pod) → ℕ → Option PodInfo
resolved_by e none id = resolve e id
resolved_by e (some (files, pods)) id = last_for id (attributions files pods)

last_listed-ok :
    (ls : List Listing) (files : Files) (pods : List Pod)
    → last_listed (ls ++ (record { files = files; pods = ok pods } ∷ [])) ≡ some (files, pods)
unfolding last_listed
last_listed-ok [] files pods = refl
last_listed-ok (l ∷ ls) files pods = rw (last_listed-ok ls files pods) refl

last_listed-err :
    (ls : List Listing) (files : Files) (message : Text)
    → last_listed (ls ++ (record { files = files; pods = err message } ∷ [])) ≡ last_listed ls
unfolding last_listed
last_listed-err [] files message = refl
last_listed-err (l ∷ ls) files message = rw (last_listed-err ls files message) refl

abbrev IsResolved : Enricher → List Listing → Enricher → Type 0
IsResolved e seen b = (id : ℕ) → resolve b id ≡ resolved_by e (last_listed seen) id

sync_pods-IsResolved :
    (e : Enricher) (seen : List Listing) (files : Files) (pods : Result (List Pod)) (b : Enricher)
    → IsResolved e seen b
    → IsResolved e (seen ++ (record { files = files; pods = pods } ∷ [])) (sync_pods files pods b).0
unfolding sync_pods
sync_pods-IsResolved e seen files (ok pods) b h id =
    resolve-sync_pods files pods b id
    ∙ sym (ap (λ o. resolved_by e o id) (last_listed-ok seen files pods))
sync_pods-IsResolved e seen files (err message) b h id =
    h id ∙ sym (ap (λ o. resolved_by e o id) (last_listed-err seen files message))

-- `StartSync` returns once its context has ended, and waits for ticks before that. It leaves maps in
-- which a cgroup resolves as the last listing that succeeded before the end has it; failed listings,
-- earlier ones and later ones change nothing, and without a success the maps stay what they were.
pub start_sync-returns :
    (signals : List (Signal (Unit {0}) Listing)) (e : Enricher)
    → (b : Enricher) × (start_sync signals e ≡ stands signals b)
      × ((id : ℕ) → resolve b id ≡ resolved_by e (last_listed (ticks_before signals)) id)
unfolding start_sync
start_sync-returns signals e =
    loop-stands nobody sync_on (IsResolved e) (λ seen o b h. h)
      (λ seen l b h.
        ((sync_pods l.files l.pods b).0, refl, sync_pods-IsResolved e seen l.files l.pods b h))
      signals e (λ id. unfold last_listed in refl)
