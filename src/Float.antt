-- ===== src/Float.antt =====
-- `float64`: what the program does with it, over any type that has these operations. Rounding makes
-- addition neither associative nor exact, so no law of arithmetic is assumed where a theorem only
-- follows which operations are made; the laws of `Laws`, where a theorem takes them, hold of IEEE
-- 754 numbers, NaN and infinities included.
pub mod Nonneg
pub mod Laws
pub mod Pico
pub mod Sums
use koprobe.Prelude.{ℕ, Bool, false, true, not, ◌||◌, ◌≡◌, ℤ}

pub record Double (F : Type 0) : Type 0 where
  -- the constant m / 10 ^ k of the source, `lit m k`
  pub lit : ℕ → ℕ → F
  -- `float64(x)` of a `uint64` and of an `int64`
  pub of_ℕ : ℕ → F
  pub of_ℤ : ℤ → F
  pub add : F → F → F
  pub sub : F → F → F
  pub mul : F → F → F
  pub div : F → F → F
  pub lt : F → F → Bool
  pub eq : F → F → Bool
  -- `int(x)`, and for an `x` that does not fit whatever the machine makes of it; `math.Round(x)`
  pub trunc : F → ℤ
  pub round : F → F

module _ {F : Type 0} ⦃d : Double F⦄ where
  infixl 65 ◌⊕◌ ◌⊖◌
  infixl 70 ◌⊗◌ ◌⊘◌
  infix 50 ◌≺◌ ◌≈◌
  abbrev pub ◌⊕◌ : F → F → F
  ◌⊕◌ = d.add

  abbrev pub ◌⊖◌ : F → F → F
  ◌⊖◌ = d.sub

  abbrev pub ◌⊗◌ : F → F → F
  ◌⊗◌ = d.mul

  abbrev pub ◌⊘◌ : F → F → F
  ◌⊘◌ = d.div

  -- `x < y`; `x > y` is `y ≺ x`
  abbrev pub ◌≺◌ : F → F → Bool
  ◌≺◌ = d.lt

  -- `x == y`
  abbrev pub ◌≈◌ : F → F → Bool
  ◌≈◌ = d.eq

  abbrev pub nought : F
  nought = d.lit 0 0

  -- `x <= y`
  abbrev pub le : F → F → Bool
  le x y = (x ≺ y) || (x ≈ y)
