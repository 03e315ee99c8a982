-- ===== src/Aggregator/Attribution.antt =====
-- What a pod is charged in a run of the daemon, from the collectors' updates to the recorded cost.
mod Tests
use mathlib.Core.List.{Memᴰ}
use mathlib.Core.Option.{some_inj}
use mathlib.Core.Path.{subst, ap₂}
use koprobe.Prelude.{
  ℕ, ◌≡◌, refl, sym, ap, ◌∙◌, Bool, true, false, nat_eq, text_eq, Text, ℤ, All, All-imp, Option,
  none, some, Option-cases, inl, inr, Bool-cases, if◌then◌else◌, List, [], ◌∷◌, ◌++◌, arith, ◌==◌,
  text_beq_refl,
}
use koprobe.Float.{Double}
use koprobe.GoMap.{Map, lookup, IsMap}
use koprobe.GoMap.Ranging.{Order, insert_all-IsMap, last_for, last_for-All}
use koprobe.GoMap.Members.{All-mem, mem-last_for, visit_iff}
use koprobe.Collector.{Manager, RawMetrics, fresh_metrics, snapshot}
use koprobe.Collector.Events.{Event, send, send_all}
use koprobe.Collector.Tally.{touched, grow, lookup-send_all-empty}
use koprobe.Collector.Copies.{IsManager, send_all-IsManager, lookup-snapshot, snapshot-IsMap}
use koprobe.Enricher.{PodInfo, Enricher, resolve}
use koprobe.Pricing.{ResourcePrices}
use koprobe.Aggregator.{
  PodCost, Aggregator, Snapshot, Orders, pod_key, cost_of, new_aggregator, store, costs_at,
  collect_at,
}
use koprobe.Aggregator.Pods.{priced, lookup-new_costs}
use koprobe.Aggregator.Runs.{Run, started, measured, synced, refreshed, ticked}

-- the updates of a run, oldest first
unfoldable pub sent :
    {F : Type 0} ⦃d : Double F⦄ {snaps : List (Snapshot F)} {a : Aggregator F}
    → Run snaps a
    → List Event
sent (started collectors files pods http now later provider region e) = []
sent (measured e r) = sent r ++ (e ∷ [])
sent (synced files listing r) = sent r
sent (refreshed http now r) = sent r
sent (ticked orders asked now prices stale e r) = sent r

send_all-snoc :
    (es : List Event) (e : Event) (m : Manager)
    → send_all (es ++ (e ∷ [])) m ≡ send e (send_all es m)
unfolding send_all
send_all-snoc [] e m = refl
send_all-snoc (x ∷ es) e m = send_all-snoc es e (send x m)

module _ {F : Type 0} ⦃d : Double F⦄ where
  -- the manager of a run has got the updates of the run, and no tick takes any of them out
  Run-collectors :
      {snaps : List (Snapshot F)} {a : Aggregator F} (r : Run snaps a)
      → (m : Manager) × (m.metrics ≡ []) × (a.collectors ≡ send_all (sent r) m)
  unfolding sent new_aggregator collect_at store
  Run-collectors (started collectors files pods http now later provider region e) =
      (collectors, e, unfold send_all in refl)
  Run-collectors (measured e r) =
      let (m, new, same) = Run-collectors r in
      (m, new, ap (send e) same ∙ sym (send_all-snoc (sent r) e m))
  Run-collectors (synced files listing r) = Run-collectors r
  Run-collectors (refreshed http now r) = Run-collectors r
  Run-collectors (ticked orders asked now prices stale e r) = Run-collectors r

  lookup-collectors :
      {snaps : List (Snapshot F)} {a : Aggregator F} (r : Run snaps a) (id : ℕ)
      → lookup id a.collectors.metrics
        ≡ (if touched id (sent r) then some (grow id (sent r) (fresh_metrics id)) else none)
  lookup-collectors r id =
      let (m, new, same) = Run-collectors r in
      ap (λ c. lookup id c.metrics) same ∙ lookup-send_all-empty id (sent r) m new

  Run-IsManager :
      {snaps : List (Snapshot F)} {a : Aggregator F} → Run snaps a → IsManager a.collectors
  Run-IsManager r =
      let (m, new, same) = Run-collectors r in
      subst (λ c. IsManager c) (sym same)
        (send_all-IsManager (sent r) m (subst (λ (l : Map ℕ RawMetrics). IsMap l) (sym new) tt))

  module _ (prices : ResourcePrices F) (now : ℤ) (enricher : Enricher) where
    mem-priced :
        (raw : List (ℕ × RawMetrics)) (id : ℕ) (m : RawMetrics) (pod : PodInfo)
        → Memᴰ (id, m) raw
        → resolve enricher id ≡ some pod
        → Memᴰ (pod_key pod, cost_of prices now pod m) (priced prices now enricher raw)
    unfolding priced
    mem-priced [] id m pod t r = elim t [ ]
    mem-priced ((j, n) ∷ raw) id m pod (Memᴰ.head p) r =
        let key = ap (λ x. x.0) p in
        let value = ap (λ x. x.1) p in
        let found : resolve enricher j ≡ some pod = ap (resolve enricher) (sym key) ∙ r in
        rw (priced, found) (Memᴰ.head (ap (λ c. (pod_key pod, cost_of prices now pod c)) value))
    mem-priced ((j, n) ∷ raw) id m pod (Memᴰ.tail t) r =
        let rest = mem-priced raw id m pod t r in
        elim (Option-cases (resolve enricher j)) [
          | inl e ↦ rw (priced, e) rest
          | inr (q, e) ↦ rw (priced, e) (Memᴰ.tail rest)
        ]

    All-priced :
        (P : Text × PodCost F → Type 0) (raw : List (ℕ × RawMetrics))
        → All
            (λ x.
              (pod : PodInfo)
              → resolve enricher x.0 ≡ some pod
              → P (pod_key pod, cost_of prices now pod x.1))
            raw
        → All P (priced prices now enricher raw)
    unfolding priced
    All-priced P [] h = tt
    All-priced P ((id, m) ∷ raw) h = elim (Option-cases (resolve enricher id)) [
      | inl e ↦ rw (priced, e) (All-priced P raw h.1)
      | inr (pod, e) ↦ rw (priced, e) (h.0 pod e, All-priced P raw h.1)
    ]

  -- what the manager's sums are for a cgroup
  abbrev summed : {snaps : List (Snapshot F)} {a : Aggregator F} → Run snaps a → ℕ → RawMetrics
  summed r id = grow id (sent r) (fresh_metrics id)

  visited :
      {snaps : List (Snapshot F)} {a : Aggregator F} (r : Run snaps a) (orders : Orders F) (id : ℕ)
      (m : RawMetrics)
      → (Memᴰ (id, m) (orders.raw.visit (snapshot orders.copying a.collectors))
          → (if touched id (sent r) then some (summed r id) else none) ≡ some m)
        × ((if touched id (sent r) then some (summed r id) else none) ≡ some m
            → Memᴰ (id, m) (orders.raw.visit (snapshot orders.copying a.collectors)))
  visited {a = a} r orders id m =
      let copies = snapshot orders.copying a.collectors in
      let (to, from) =
        visit_iff orders.raw copies (snapshot-IsMap orders.copying a.collectors) id m in
      let same =
        lookup-snapshot orders.copying a.collectors id (Run-IsManager r) ∙ lookup-collectors r id in
      (λ t. sym same ∙ to t, λ h. from (same ∙ h))

  visited-All :
      {snaps : List (Snapshot F)} {a : Aggregator F} (r : Run snaps a) (orders : Orders F)
      → All
          (λ x. (touched x.0 (sent r) ≡ true) × (x.1 ≡ summed r x.0))
          (orders.raw.visit (snapshot orders.copying a.collectors))
  visited-All r orders = All-mem _ _ (λ x m. sums x ((visited r orders x.0 x.1).0 m))
    where
      sums :
          (x : ℕ × RawMetrics)
          → (if touched x.0 (sent r) then some (summed r x.0) else none) ≡ some x.1
          → (touched x.0 (sent r) ≡ true) × (x.1 ≡ summed r x.0)
      sums x h = elim (Bool-cases (touched x.0 (sent r))) [
        | inl e ↦ (e, sym (some_inj.0 (rw e at h)))
        | inr e ↦ absurd (ground (arith, e, h))
      ]

  -- In every run of the daemon, a tick charges a pod of which one container alone has been measured
  -- for all that the updates since the start of the daemon counted for that container, whatever was
  -- charged at the ticks before, and in whatever orders the loops visit their maps.
  pub lookup-collect_at :
      {snaps : List (Snapshot F)} {a : Aggregator F} (r : Run snaps a) (orders : Orders F) (now : ℤ)
      (prices : ResourcePrices F) (id : ℕ) (pod : PodInfo)
      → touched id (sent r) ≡ true
      → resolve a.enricher id ≡ some pod
      → ((other : ℕ) (q : PodInfo)
          → touched other (sent r) ≡ true
          → resolve a.enricher other ≡ some q
          → pod_key q ≡ pod_key pod
          → other ≡ id)
      → lookup (pod_key pod) (collect_at orders now prices a).pod_costs
        ≡ some (cost_of prices now pod (grow id (sent r) (fresh_metrics id)))
  unfolding collect_at store costs_at
  lookup-collect_at {a = a} r orders now prices id pod touch found alone =
      let raw = orders.raw.visit (snapshot orders.copying a.collectors) in
      let charge = cost_of prices now pod (grow id (sent r) (fresh_metrics id)) in
      let (c, last) = mem-last_for (pod_key pod) charge (priced prices now a.enricher raw) (
        mem-priced prices now a.enricher raw id _ pod ((visited r orders id _).1 (rw touch refl))
          found) in
      let each =
        All-priced prices now a.enricher (λ x. x.0 ≡ pod_key pod → x.1 ≡ charge) raw
          (All-imp _ _ raw
            (λ x h q known key. same_charge x q (alone x.0 q h.0 known key) h.1 known)
            (visited-All r orders)) in
      let only =
        last_for-All (λ x. x.0 ≡ pod_key pod → x.1 ≡ charge) (pod_key pod)
          (priced prices now a.enricher raw) each last refl in
      lookup-new_costs prices now a.enricher raw (pod_key pod) ∙ last ∙ ap some only
    where
      same_charge :
          (x : ℕ × RawMetrics) (q : PodInfo)
          → x.0 ≡ id
          → x.1 ≡ summed r x.0
          → resolve a.enricher x.0 ≡ some q
          → cost_of prices now q x.1 ≡ cost_of prices now pod (summed r id)
      same_charge x q one sums known =
          let who : q ≡ pod = some_inj.0 (sym known ∙ ap (resolve a.enricher) one ∙ found) in
          let counted : x.1 ≡ summed r id = sums ∙ ap (summed r) one in
          ap₂ (cost_of prices now) who counted
