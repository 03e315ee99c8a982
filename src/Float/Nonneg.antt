-- ===== src/Float/Nonneg.antt =====
-- Sums of numbers that are at least 0.
use koprobe.Prelude.{All, foldl, List, [], ◌∷◌}
use koprobe.Float.{Double, ◌⊕◌, nought}
use koprobe.Float.Laws.{IsRounded, IsNonneg}
use koprobe.Float.Sums.{sum}

module _ {F A : Type 0} ⦃d : Double F⦄ (laws : IsRounded F) (part : A → F) where
  foldl-IsNonneg :
      (xs : List A) (acc : F)
      → IsNonneg acc
      → All (λ x. IsNonneg (part x)) xs
      → IsNonneg (foldl (λ a x. a ⊕ part x) acc xs)
  foldl-IsNonneg [] acc h k = h
  foldl-IsNonneg (x ∷ xs) acc h k =
      foldl-IsNonneg xs (acc ⊕ part x) (laws.add_nonneg acc (part x) h k.0) k.1

  pub sum-IsNonneg : (xs : List A) → All (λ x. IsNonneg (part x)) xs → IsNonneg (sum part xs)
  unfolding sum
  sum-IsNonneg xs h = foldl-IsNonneg xs nought laws.nought_nonneg h
