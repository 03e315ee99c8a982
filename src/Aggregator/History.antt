-- ===== src/Aggregator/History.antt =====
-- The snapshots that the daemon keeps and serves, over every run.
use mathlib.Core.Path.{subst}
use koprobe.Prelude.{
  Bool, Option, none, ltb_ℤ, ◌-ℤ◌, All, All-drop, All-last, Option-cases, inl, inr, sym, min,
  length-drop, ◌-◌, ◌≡◌, refl, ap, ◌∙◌, ℤ, some, List, [], ◌∷◌, ◌++◌, length, last?, arith,
}
use koprobe.Float.{Double}
use koprobe.Window.{trim, suffix, trim-suffix-append, last?-suffix}
use koprobe.Pricing.{ResourcePrices, get, hour}
use koprobe.Pricing.Ready.{IsReady, new_pricer-IsReady, refresh-IsReady}
use koprobe.Aggregator.{
  Aggregator, Snapshot, Orders, new_aggregator, store, snapshot_at, collect_at, collect,
  latest_snapshot, empty_snapshot,
}
use koprobe.Aggregator.Runs.{Run, started, measured, synced, refreshed, ticked}

module _ {F : Type 0} ⦃d : Double F⦄ where
  -- The history is always the last 5760 of all the snapshots built, in their order.
  pub history-eq-suffix :
      {snaps : List (Snapshot F)} {a : Aggregator F} → Run snaps a → a.history ≡ suffix 5760 snaps
  unfolding new_aggregator collect_at store
  history-eq-suffix (started collectors files pods http now later provider region e) = refl
  history-eq-suffix (measured e r) = history-eq-suffix r
  history-eq-suffix (synced files listing r) = history-eq-suffix r
  history-eq-suffix (refreshed http now r) = history-eq-suffix r
  history-eq-suffix (ticked {snaps = snaps} {a = a} orders asked now prices stale e r) =
      ap (λ h. trim 5760 (h ++ (snapshot_at orders now prices a ∷ []))) (history-eq-suffix r)
      ∙ trim-suffix-append 5760 snaps (snapshot_at orders now prices a)

  -- The history never holds more than 5760 snapshots, and fewer only if fewer were built.
  pub length-history :
      {snaps : List (Snapshot F)} {a : Aggregator F}
      → Run snaps a
      → length a.history ≡ min 5760 (length snaps)
  length-history {snaps = snaps} r =
      omega (arith, ap length (history-eq-suffix r), length-drop (length snaps - 5760) snaps)

  -- Whoever asks for the latest snapshot gets the last one built, and before the first tick one
  -- with no pods.
  pub latest_snapshot-last :
      (now : ℤ) (snaps : List (Snapshot F)) (s : Snapshot F) {a : Aggregator F}
      → Run (snaps ++ (s ∷ [])) a
      → latest_snapshot now a ≡ s
  unfolding latest_snapshot
  latest_snapshot-last now snaps s r =
      let last = ap last? (history-eq-suffix r) ∙ last?-suffix 5759 snaps s in
      rw (latest_snapshot, last)

  -- what holds of every snapshot built and of an empty one holds of the latest
  pub latest_snapshot-All :
      {snaps : List (Snapshot F)} {a : Aggregator F} (P : Snapshot F → Type 0) (now : ℤ)
      → P (empty_snapshot now)
      → All P snaps
      → Run snaps a
      → P (latest_snapshot now a)
  unfolding latest_snapshot
  latest_snapshot-All {snaps = snaps} {a = a} P now none_yet h r =
      let kept =
        subst (All P) (sym (history-eq-suffix r)) (All-drop P (length snaps - 5760) snaps h) in
      elim (Option-cases (last? a.history)) [
        | inl e ↦ rw (latest_snapshot, e) none_yet
        | inr (s, e) ↦ rw (latest_snapshot, e) (All-last P a.history s kept e)
      ]

  pricer-IsReady : {snaps : List (Snapshot F)} {a : Aggregator F} → Run snaps a → IsReady a.pricer
  unfolding new_aggregator collect_at store
  pricer-IsReady (started collectors files pods http now later provider region e) =
      (new_pricer-IsReady http now later provider region).0
  pricer-IsReady (measured e r) = pricer-IsReady r
  pricer-IsReady (synced files listing r) = pricer-IsReady r
  pricer-IsReady (refreshed {a = a} http now r) =
      refresh-IsReady http now a.pricer (pricer-IsReady r)
  pricer-IsReady (ticked orders asked now prices stale e r) = pricer-IsReady r

  -- in every state of the daemon there are prices
  pub Run-get :
      {snaps : List (Snapshot F)} {a : Aggregator F} (asked : ℤ)
      → Run snaps a
      → (prices : ResourcePrices F) × (stale : Bool) × (get asked a.pricer ≡ some (prices, stale))
  unfolding get
  Run-get asked r =
      let (prices, e, _) = pricer-IsReady r in
      (
        prices,
        ltb_ℤ hour (asked -ℤ prices.fetched_at),
        ap
            (λ (o : Option (ResourcePrices F)). elim o [
              | none ↦ none
              | some r ↦ some (r, ltb_ℤ hour (asked -ℤ r.fetched_at))
            ])
            e,
      )

  collect-of_prices :
      (orders : Orders F) (asked now : ℤ) (a : Aggregator F) (prices : ResourcePrices F)
      → a.pricer.prices ≡ some prices
      → collect orders asked now a ≡ some (collect_at orders now prices a)
  unfolding collect get
  collect-of_prices orders asked now a prices e = rw e

  -- A tick never panics: in every state of the daemon `collect` returns, with prices for the
  -- pricer's provider and region.
  pub collect_total :
      {snaps : List (Snapshot F)} {a : Aggregator F} (orders : Orders F) (asked now : ℤ)
      → Run snaps a
      → (prices : ResourcePrices F) × (collect orders asked now a
          ≡ some (collect_at orders now prices a))
        × (prices.provider ≡ a.pricer.provider)
        × (prices.region ≡ a.pricer.region)
  collect_total {a = a} orders asked now r =
      let (prices, e, good) = pricer-IsReady r in
      (prices, collect-of_prices orders asked now a prices e, good.same_provider, good.same_region)
