-- ===== src/Aggregator/Pods.antt =====
-- The pod costs of a window against the containers visited: which container a pod is charged for.
use koprobe.Prelude.{
  ℕ, ◌≡◌, refl, ap, ◌∙◌, text_eq, Text, ℤ, foldl, none, some, List, [], ◌∷◌, arith,
}
use koprobe.Float.{Double}
use koprobe.GoMap.{Map, lookup, IsMap}
use koprobe.GoMap.Ranging.{insert_all, insert_all-IsMap, last_for, lookup-insert_all_last}
use koprobe.Collector.{RawMetrics}
use koprobe.Enricher.{Enricher, resolve}
use koprobe.Pricing.{ResourcePrices}
use koprobe.Aggregator.{PodCost, pod_key, cost_of, add_cost, new_costs}

module _ {F : Type 0} ⦃d : Double F⦄ (prices : ResourcePrices F) (now : ℤ)
    (enricher : Enricher) where
  -- The containers that belong to a pod, each with its pod's key and its own cost.
  unfoldable pub priced : List (ℕ × RawMetrics) → List (Text × PodCost F)
  priced [] = []
  priced ((id, m) ∷ raw) = elim (resolve enricher id) [
    | none ↦ priced raw
    | some pod ↦ (pod_key pod, cost_of prices now pod m) ∷ priced raw
  ]

  new_costs-eq-insert_all :
      (raw : List (ℕ × RawMetrics)) (costs : Map Text (PodCost F))
      → foldl (add_cost prices now enricher) costs raw ≡ insert_all costs (priced raw)
  unfolding priced insert_all
  new_costs-eq-insert_all [] costs = refl
  new_costs-eq-insert_all ((id, m) ∷ raw) costs =
      new_costs-eq-insert_all raw (add_cost prices now enricher costs (id, m))
      ∙ (unfold add_cost in ground arith)

  -- The cost recorded for a pod is that of the last of its containers that the loop visits; a pod
  -- has one exactly if one of its containers was visited.
  pub lookup-new_costs :
      (raw : List (ℕ × RawMetrics)) (key : Text)
      → lookup key (new_costs prices now enricher raw) ≡ last_for key (priced raw)
  unfolding new_costs
  lookup-new_costs raw key =
      ap (lookup key) (new_costs-eq-insert_all raw [])
      ∙ lookup-insert_all_last key [] (priced raw)
      ∙ (unfold lookup in ground arith)

  pub new_costs-IsMap : (raw : List (ℕ × RawMetrics)) → IsMap (new_costs prices now enricher raw)
  unfolding new_costs
  new_costs-IsMap raw = rw (new_costs-eq-insert_all raw []) (insert_all-IsMap [] (priced raw) tt)
