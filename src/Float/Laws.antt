-- ===== src/Float/Laws.antt =====
-- What IEEE 754 comparisons and rounded arithmetic guarantee.
use koprobe.Prelude.{ℕ, ◌*◌, ◌^◌, ◌<◌, ◌≤◌, false, true, ◌≡◌, ◌⊎◌}
use koprobe.Float.{Double, ◌⊕◌, ◌⊖◌, ◌⊗◌, ◌⊘◌, ◌≺◌, ◌≈◌, nought, le}

-- Comparisons, NaN included: NaN is the value that does not equal itself.
pub record IsOrdered (F : Type 0) ⦃d : Double F⦄ : Type 0 where
  pub lt_irrefl : (x : F) → (x ≺ x) ≡ false
  pub lt_trans : (x y z : F) → (x ≺ y) ≡ true → (y ≺ z) ≡ true → (x ≺ z) ≡ true
  pub lt_of_lt_of_le : (x y z : F) → (x ≺ y) ≡ true → le y z ≡ true → (x ≺ z) ≡ true
  pub lt_of_le_of_lt : (x y z : F) → le x y ≡ true → (y ≺ z) ≡ true → (x ≺ z) ≡ true
  pub lt_total : (x y : F) → (x ≈ x) ≡ true → (y ≈ y) ≡ true → ((x ≺ y) ≡ true) ⊎ (le y x ≡ true)

-- positive and finite: what minus itself is 0, unlike infinity and NaN
abbrev pub IsPositive : {F : Type 0} ⦃d : Double F⦄ → F → Type 0
IsPositive x = ((nought ≺ x) ≡ true) × ((x ⊖ x ≈ nought) ≡ true)

-- at least 0, infinity included
abbrev pub IsNonneg : {F : Type 0} ⦃d : Double F⦄ → F → Type 0
IsNonneg x = le nought x ≡ true

-- The signs of rounded results. Constants that are not too small or too large round to positive
-- numbers, and so do their products and quotients.
pub record IsRounded (F : Type 0) ⦃d : Double F⦄ : Type 0 where
  pub number_of_le : (x y : F) → le x y ≡ true → (y ≈ y) ≡ true
  pub nought_nonneg : IsNonneg {F = F} nought
  pub of_ℕ_nonneg : (n : ℕ) → IsNonneg (d.of_ℕ n)
  pub add_nonneg : (x y : F) → IsNonneg x → IsNonneg y → IsNonneg (x ⊕ y)
  pub mul_nonneg : (x y : F) → IsNonneg x → IsPositive y → IsNonneg (x ⊗ y)
  pub div_nonneg : (x y : F) → IsNonneg x → IsPositive y → IsNonneg (x ⊘ y)
  pub lit_positive : (m k : ℕ) → 0 < m → m < 2 ^ 53 → k ≤ 6 → IsPositive (d.lit m k)
  pub lit_mul_positive :
      (m k n j : ℕ)
      → 0 < m
      → m < 2 ^ 53
      → k ≤ 6
      → 0 < n
      → n < 2 ^ 53
      → j ≤ 6
      → IsPositive (d.lit m k ⊗ d.lit n j)
  pub ratio_positive :
      (m n : ℕ)
      → 0 < m
      → m < 2 ^ 53
      → 0 < n
      → n < 2 ^ 53
      → n ≤ m * 10 ^ 12
      → IsPositive (d.of_ℕ 0 ⊕ d.of_ℕ m ⊘ d.lit n 0)

-- a number that is neither infinite nor NaN
abbrev pub IsFinite : {F : Type 0} ⦃d : Double F⦄ → F → Type 0
IsFinite x = (x ⊖ x ≈ nought) ≡ true

-- What a sum with a finite number keeps, and the signs of `math.Round` and of a quotient of constants.
pub record IsFinitary (F : Type 0) ⦃d : Double F⦄ : Type 0 where
  pub number_of_finite : (x : F) → IsFinite x → (x ≈ x) ≡ true
  pub add_number : (x y : F) → (x ≈ x) ≡ true → IsFinite y → (x ⊕ y ≈ x ⊕ y) ≡ true
  pub round_nonneg : (x : F) → IsNonneg x → IsNonneg (d.round x)
  pub lit_div_positive :
      (m n : ℕ)
      → 0 < m
      → m < 2 ^ 53
      → 0 < n
      → n < 2 ^ 53
      → n ≤ m * 10 ^ 12
      → IsPositive (d.lit m 0 ⊘ d.lit n 0)
