-- ===== src/Sorting.antt =====
-- `sort.Slice`, which the handlers of internal/exporter/api.go and cmd/local/main.go call: the
-- result is a rearrangement of the slice, sorted where the comparison is a strict weak order on its
-- elements. Which one is left open, since `sort.Slice` is not stable.
use mathlib.Core.List.{Permᴰ}
use mathlib.Core.List.Permᴰ as PermD
use koprobe.Float.{Double, ◌≺◌, ◌≈◌}
use koprobe.Float.Laws.{IsOrdered}
use koprobe.GoMap.Values.{All-perm}
use koprobe.Prelude.{
  true, false, arith, All, ◌⊎◌, ◌≡◌, refl, Bool-cases, inl, inr, Bool, List, [], ◌∷◌, if◌then◌else◌,
}

-- no later element is less than an earlier one
abbrev pub IsSorted : {A : Type 0} → (A → A → Bool) → List A → Type 0
IsSorted less [] = Unit
IsSorted less (x ∷ xs) = All (λ y. less y x ≡ false) xs × IsSorted less xs

abbrev pub IsValid : {A : Type 0} → (A → Bool) → A → Type 0
IsValid valid x = valid x ≡ true

-- A strict weak order, on the elements that are valid.
pub record IsWeakOrder {A : Type 0} (valid : A → Bool) (less : A → A → Bool) : Type 0 where
  pub asymm : (x y : A) → IsValid valid x → IsValid valid y → less x y ≡ true → less y x ≡ false
  pub either :
      (x y z : A)
      → IsValid valid x
      → IsValid valid y
      → IsValid valid z
      → less x z ≡ true
      → (less x y ≡ true) ⊎ (less y z ≡ true)

pub record Sorter (A : Type 0) : Type 0 where
  pub sort : (A → A → Bool) → List A → List A
  pub sort-perm : (less : A → A → Bool) (xs : List A) → Permᴰ xs (sort less xs)
  pub sort-IsSorted :
      (valid : A → Bool) (less : A → A → Bool) (xs : List A)
      → IsWeakOrder valid less
      → All (IsValid valid) xs
      → IsSorted less (sort less xs)

module _ {A : Type 0} where
  unfoldable place : (A → A → Bool) → A → List A → List A
  place less x [] = x ∷ []
  place less x (y ∷ ys) = let rest = place less x ys in if less y x then y ∷ rest else x ∷ y ∷ ys

  unfoldable placed : (A → A → Bool) → List A → List A
  placed less [] = []
  placed less (x ∷ xs) = place less x (placed less xs)

  place-perm : (less : A → A → Bool) (x : A) (xs : List A) → Permᴰ (x ∷ xs) (place less x xs)
  unfolding place
  place-perm less x [] = PermD.refl (x ∷ [])
  place-perm less x (y ∷ ys) = elim (Bool-cases (less y x)) [
    | inl e ↦
        rw (place, e) (Permᴰ.trans (Permᴰ.swap refl refl) (Permᴰ.cons refl (place-perm less x ys)))
    | inr e ↦ rw (place, e) (PermD.refl (x ∷ y ∷ ys))
  ]

  placed-perm : (less : A → A → Bool) (xs : List A) → Permᴰ xs (placed less xs)
  unfolding placed
  placed-perm less [] = Permᴰ.nil
  placed-perm less (x ∷ xs) =
      Permᴰ.trans (Permᴰ.cons refl (placed-perm less xs)) (place-perm less x (placed less xs))

  module _ (valid : A → Bool) (less : A → A → Bool) (order : IsWeakOrder valid less) where
    less_trans_false :
        (x y : A) (zs : List A)
        → IsValid valid x
        → IsValid valid y
        → All (IsValid valid) zs
        → less y x ≡ false
        → All (λ z. less z y ≡ false) zs
        → All (λ z. less z x ≡ false) zs
    less_trans_false x y [] vx vy vs h k = tt
    less_trans_false x y (z ∷ zs) vx vy vs h k =
        (ground (arith, order.either z y x vs.0 vy vx), less_trans_false x y zs vx vy vs.1 h k.1)

    place-IsSorted :
        (x : A) (ys : List A)
        → IsValid valid x
        → All (IsValid valid) ys
        → IsSorted less ys
        → IsSorted less (place less x ys)
    unfolding place
    place-IsSorted x [] vx vs h = (tt, tt)
    place-IsSorted x (y ∷ ys) vx vs h = elim (Bool-cases (less y x)) [
      | inl e ↦
          rw (place, e)
            (
              All-perm (λ z. less z y ≡ false) (place-perm less x ys)
                  (order.asymm y x vs.0 vx e, h.0),
              place-IsSorted x ys vx vs.1 h.1,
            )
      | inr e ↦ rw (place, e) ((e, less_trans_false x y ys vx vs.0 vs.1 e h.0), h)
    ]

    placed-IsSorted : (xs : List A) → All (IsValid valid) xs → IsSorted less (placed less xs)
    unfolding placed
    placed-IsSorted [] vs = tt
    placed-IsSorted (x ∷ xs) vs =
        place-IsSorted x (placed less xs) vs.0 (All-perm (IsValid valid) (placed-perm less xs) vs.1)
          (placed-IsSorted xs vs.1)

  -- An instance for tests.
  pub insertion : Sorter A
  insertion = record {
    sort = placed;
    sort-perm = placed-perm;
    sort-IsSorted = λ valid less xs order h. placed-IsSorted valid less order xs h;
  }

-- Sorting by a number, the greatest first, as all the handlers do.
module _ {F A : Type 0} ⦃d : Double F⦄ (laws : IsOrdered F) (cost : A → F) where
  abbrev pub greater : A → A → Bool
  greater a b = cost b ≺ cost a

  -- the number is not NaN
  abbrev pub is_number : A → Bool
  is_number a = cost a ≈ cost a

  greater-IsWeakOrder : IsWeakOrder is_number greater
  greater-IsWeakOrder = record { asymm = asymm; either = either }
    where
      asymm :
          (x y : A)
          → IsValid is_number x
          → IsValid is_number y
          → greater x y ≡ true
          → greater y x ≡ false
      asymm x y vx vy h =
          ground (arith, laws.lt_trans (cost x) (cost y) (cost x), laws.lt_irrefl (cost x))

      either :
          (x y z : A)
          → IsValid is_number x
          → IsValid is_number y
          → IsValid is_number z
          → greater x z ≡ true
          → (greater x y ≡ true) ⊎ (greater y z ≡ true)
      either x y z vx vy vz h = elim (laws.lt_total (cost y) (cost x) vy vx) [
        | inl p ↦ inl p
        | inr q ↦ inr (laws.lt_of_lt_of_le (cost z) (cost x) (cost y) h q)
      ]

  pub sort-greater-IsSorted :
      (sorter : Sorter A) (xs : List A)
      → All (IsValid is_number) xs
      → IsSorted greater (sorter.sort greater xs)
  sort-greater-IsSorted sorter xs h =
      sorter.sort-IsSorted is_number greater xs greater-IsWeakOrder h
