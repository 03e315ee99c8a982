-- ===== src/Aggregator/Nonneg.antt =====
-- The signs of a pod's costs.
use koprobe.Prelude.{
  ℕ, ◌*◌, ◌^◌, nat_eq, text_eq, Text, ℤ, pos, ltb_ℤ, foldl, List, [], ◌∷◌, arith, Bool-cases,
  Option-cases, inl, inr,
}
use koprobe.Float.{Double, ◌⊕◌, ◌⊘◌}
use koprobe.Float.Laws.{IsRounded, IsNonneg, IsPositive}
use koprobe.GoMap.{Map}
use koprobe.GoMap.Values.{AllValues, insert-AllValues}
use koprobe.Collector.{RawMetrics}
use koprobe.Enricher.{PodInfo, Enricher, resolve}
use koprobe.Pricing.{ResourcePrices}
use koprobe.Pricing.Positive.{ArePositive}
use koprobe.Aggregator.{
  PodCost, unpriced, convert, apply_prices, add_waste, cost_of, add_cost, pod_key,
}

module _ {F : Type 0} ⦃d : Double F⦄ where
  -- the costs of a pod are at least 0
  pub record IsNonnegCost (c : PodCost F) : Type 0 where
    pub cpu : IsNonneg c.cpu_cost
    pub memory : IsNonneg c.memory_cost
    pub network : IsNonneg c.network_cost
    pub disk : IsNonneg c.disk_cost
    pub total : IsNonneg c.total_cost

  record HasUnits (c : PodCost F) : Type 0 where
    cycles : IsNonneg c.cpu_cycles_billion
    memory : IsNonneg c.memory_gb_hours
    internet : IsNonneg c.network_internet_gb
    cross_az : IsNonneg c.network_cross_az_gb
    reads : IsNonneg c.disk_read_miops
    writes : IsNonneg c.disk_write_miops

  module _ (laws : IsRounded F) where
    open laws use {of_ℕ_nonneg, add_nonneg, mul_nonneg, div_nonneg, lit_positive, ratio_positive}

    window-IsPositive : IsPositive (d.of_ℕ 0 ⊕ d.of_ℕ (15 * 10 ^ 9) ⊘ d.lit (3600 * 10 ^ 9) 0)
    window-IsPositive =
        ratio_positive (15 * 10 ^ 9) (3600 * 10 ^ 9) (omega arith) (omega arith) (omega arith)
          (omega arith) (omega arith)

    scaled : (n m : ℕ) → IsPositive (d.lit m 0) → IsNonneg (d.of_ℕ n ⊘ d.lit m 0)
    scaled n m h = div_nonneg (d.of_ℕ n) (d.lit m 0) (of_ℕ_nonneg n) h

    convert-HasUnits : (m : RawMetrics) (c : PodCost F) → HasUnits (convert m c)
    unfolding convert
    convert-HasUnits m c =
        let billion = lit_positive (10 ^ 9) 0 (omega arith) (omega arith) (omega arith) in
        let million = lit_positive (10 ^ 6) 0 (omega arith) (omega arith) (omega arith) in
        let gb = lit_positive (2 ^ 30) 0 (omega arith) (omega arith) (omega arith) in
        record {
          cycles = scaled m.cpu_cycles (10 ^ 9) billion;
          memory = mul_nonneg _ _ (scaled m.memory_bytes_avg (2 ^ 30) gb) window-IsPositive;
          internet = scaled m.network_internet_bytes (2 ^ 30) gb;
          cross_az = scaled m.network_cross_az_bytes (2 ^ 30) gb;
          reads = scaled m.disk_read_iops (10 ^ 6) million;
          writes = scaled m.disk_write_iops (10 ^ 6) million;
        }

    apply_prices-IsNonnegCost :
        (p : ResourcePrices F) (c : PodCost F)
        → ArePositive p
        → HasUnits c
        → IsNonnegCost (apply_prices p c)
    unfolding apply_prices
    apply_prices-IsNonnegCost p c h u =
        let cpu = mul_nonneg _ _ (mul_nonneg _ _ u.cycles h.cpu) window-IsPositive in
        let memory = mul_nonneg _ _ u.memory h.memory in
        let network =
          add_nonneg _ _ (mul_nonneg _ _ u.internet h.internet)
            (mul_nonneg _ _ u.cross_az h.cross_az) in
        let disk =
          add_nonneg _ _ (mul_nonneg _ _ u.reads h.disk_read)
            (mul_nonneg _ _ u.writes h.disk_write) in
        record {
          cpu = cpu;
          memory = memory;
          network = network;
          disk = disk;
          total = add_nonneg _ _ (add_nonneg _ _ (add_nonneg _ _ cpu memory) network) disk;
        }

    add_waste-IsNonnegCost :
        (m : RawMetrics) (c : PodCost F) → IsNonnegCost c → IsNonnegCost (add_waste m c)
    unfolding add_waste
    add_waste-IsNonnegCost m c h = elim (Bool-cases (ltb_ℤ (pos 0) m.cpu_requested_millis)) [
      | inl e ↦ rw e (record {
        cpu = h.cpu;
        memory = h.memory;
        network = h.network;
        disk = h.disk;
        total = h.total;
      })
      | inr e ↦ rw e h
    ]

    cost_of-IsNonnegCost :
        (p : ResourcePrices F) (now : ℤ) (pod : PodInfo) (m : RawMetrics)
        → ArePositive p
        → IsNonnegCost (cost_of p now pod m)
    unfolding cost_of
    cost_of-IsNonnegCost p now pod m h =
        add_waste-IsNonnegCost m _
          (apply_prices-IsNonnegCost p _ h (convert-HasUnits m (unpriced now pod)))

    pub add_costs-IsNonnegCost :
        (p : ResourcePrices F) (now : ℤ) (enricher : Enricher) (raw : List (ℕ × RawMetrics))
        (costs : Map Text (PodCost F))
        → ArePositive p
        → AllValues IsNonnegCost costs
        → AllValues IsNonnegCost (foldl (add_cost p now enricher) costs raw)
    add_costs-IsNonnegCost p now enricher [] costs h k = k
    add_costs-IsNonnegCost p now enricher ((id, m) ∷ raw) costs h k =
        add_costs-IsNonnegCost p now enricher raw (add_cost p now enricher costs (id, m)) h step
      where
        step : AllValues IsNonnegCost (add_cost p now enricher costs (id, m))
        step = elim (Option-cases (resolve enricher id)) [
          | inl q ↦ unfold add_cost in rw (add_cost, q) k
          | inr (pod, q) ↦
              unfold add_cost in
              rw (add_cost, q)
                (insert-AllValues IsNonnegCost (pod_key pod) (cost_of p now pod m) costs
                  (cost_of-IsNonnegCost p now pod m h) k)
        ]
