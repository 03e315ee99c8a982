-- ===== src/Aggregator/Signs.antt =====
-- The signs of the costs in every snapshot of every run of the daemon.
use mathlib.Core.Path.{subst}
use koprobe.Prelude.{
  ◌≡◌, sym, ◌∙◌, Bool, ◌==◌, nat_eq, text_eq, Text, ℤ, All, All-append, All-imp, All-select, some,
  List, [], ◌∷◌, arith, Option-cases, inl, inr,
}
use koprobe.Float.{Double}
use koprobe.Float.Laws.{IsRounded, IsNonneg}
use koprobe.Float.Sums.{sum}
use koprobe.Float.Nonneg.{sum-IsNonneg}
use koprobe.GoMap.Values.{AllValues, All-perm, All-values, AllValues-of_lookup}
use koprobe.Collector.{snapshot}
use koprobe.Pricing.{ResourcePrices, Pricer, get}
use koprobe.Pricing.Positive.{ArePositive, HasPositive, refresh-HasPositive, new_pricer-HasPositive}
use koprobe.Aggregator.{
  PodCost, TeamCost, Aggregator, Snapshot, Orders, new_costs, build_snapshot, costs_at, snapshot_at,
  new_aggregator, store, collect_at,
}
use koprobe.Aggregator.Runs.{Run, started, measured, synced, refreshed, ticked}
use koprobe.Aggregator.Teams.{pods_of, entry_of, build_snapshot-Summarises, build_snapshot-IsMap}
use koprobe.Aggregator.Nonneg.{IsNonnegCost, add_costs-IsNonnegCost}

module _ {F : Type 0} ⦃d : Double F⦄ where
  -- so are those of a snapshot, of its pods and of its teams
  pub record IsNonnegSnapshot (s : Snapshot F) : Type 0 where
    pub total : IsNonneg s.total
    pub pods : All IsNonnegCost s.pod_costs
    pub teams : AllValues (λ tc. IsNonneg tc.total_cost) s.team_costs

  get-prices :
      (t : ℤ) (p : Pricer F) (r : ResourcePrices F) (stale : Bool)
      → get t p ≡ some (r, stale)
      → p.prices ≡ some r
  unfolding get
  get-prices t p r stale h = elim (Option-cases p.prices) [
    | inl e ↦ ground (arith, e)
    | inr (q, e) ↦ ground (arith, e)
  ]

  module _ (laws : IsRounded F) where
    open laws use {add_nonneg}

    costs-IsNonneg :
        (costs : List (PodCost F))
        → All IsNonnegCost costs
        → IsNonneg (sum (λ c. c.total_cost) costs)
    costs-IsNonneg costs h =
        sum-IsNonneg laws (λ c. c.total_cost) costs
          (All-imp IsNonnegCost (λ c. IsNonneg c.total_cost) costs (λ c k. k.total) h)

    entry_of-IsNonneg :
        (team : Text) (pods : List (PodCost F)) (tc : TeamCost F)
        → All IsNonnegCost pods
        → entry_of team pods ≡ some tc
        → IsNonneg tc.total_cost
    unfolding entry_of
    entry_of-IsNonneg team [] tc h e = absurd (cc e)
    entry_of-IsNonneg team (c ∷ cs) tc h e =
        subst (λ (t : F). IsNonneg t) (ground (arith, e)) (costs-IsNonneg (c ∷ cs) h)

    build_snapshot-IsNonnegSnapshot :
        (now : ℤ) (costs : List (PodCost F))
        → All IsNonnegCost costs
        → IsNonnegSnapshot (build_snapshot now costs)
    build_snapshot-IsNonnegSnapshot now costs h =
        let made = build_snapshot-Summarises now costs in
        record {
          total = subst (λ (t : F). IsNonneg t) (sym made.total_eq) (costs-IsNonneg costs h);
          pods = subst (All IsNonnegCost) (sym made.pods_eq) h;
          teams =
              AllValues-of_lookup (λ tc. IsNonneg tc.total_cost) _ (build_snapshot-IsMap now costs)
                (λ team tc e.
                  entry_of-IsNonneg team (pods_of team costs) tc
                    (All-select IsNonnegCost (λ c. c.team == team) costs h)
                    (sym (made.teams_eq team) ∙ e));
        }

    snapshot_at-IsNonnegSnapshot :
        (orders : Orders F) (now : ℤ) (p : ResourcePrices F) (a : Aggregator F)
        → ArePositive p
        → IsNonnegSnapshot (snapshot_at orders now p a)
    unfolding snapshot_at costs_at new_costs
    snapshot_at-IsNonnegSnapshot orders now p a h = build_snapshot-IsNonnegSnapshot now _ (
        All-values IsNonnegCost _ (
          All-perm (λ e. IsNonnegCost e.1) (orders.costs.visit-perm _)
            (add_costs-IsNonnegCost laws p now a.enricher
              (orders.raw.visit (snapshot orders.copying a.collectors)) [] h tt)))

    Run-HasPositive :
        {snaps : List (Snapshot F)} {a : Aggregator F} → Run snaps a → HasPositive a.pricer.prices
    unfolding new_aggregator collect_at store
    Run-HasPositive (started collectors files pods http now later provider region e) =
        new_pricer-HasPositive laws http now later provider region
    Run-HasPositive (measured e r) = Run-HasPositive r
    Run-HasPositive (synced files listing r) = Run-HasPositive r
    Run-HasPositive (refreshed {a = a} http now r) =
        refresh-HasPositive laws http now a.pricer (Run-HasPositive r)
    Run-HasPositive (ticked orders asked now prices stale e r) = Run-HasPositive r

    -- In every run of the daemon, whatever was counted and replied, every snapshot's total, the total
    -- of each of its teams, and of each pod the costs of its CPU, memory, network and disk and their
    -- total are at least 0, and none is NaN: this for numbers that round as `IsRounded` says.
    pub Run-IsNonnegSnapshot :
        {snaps : List (Snapshot F)} {a : Aggregator F} → Run snaps a → All IsNonnegSnapshot snaps
    Run-IsNonnegSnapshot (started collectors files pods http now later provider region e) = tt
    Run-IsNonnegSnapshot (measured e r) = Run-IsNonnegSnapshot r
    Run-IsNonnegSnapshot (synced files listing r) = Run-IsNonnegSnapshot r
    Run-IsNonnegSnapshot (refreshed http now r) = Run-IsNonnegSnapshot r
    Run-IsNonnegSnapshot (ticked {snaps = snaps} {a = a} orders asked now prices stale e r) =
        All-append IsNonnegSnapshot snaps _ (Run-IsNonnegSnapshot r) (
          snapshot_at-IsNonnegSnapshot orders now prices a
              (subst HasPositive (get-prices asked a.pricer prices stale e) (Run-HasPositive r)),
          tt,
        )
