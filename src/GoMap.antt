-- ===== src/GoMap.antt =====
-- Go's built-in map: an association list with distinct keys, with `m[k]`, `m[k] = v` and `range m`.
-- Go leaves the order of a `range` loop open: a loop takes the order as an argument, and theorems
-- hold for every order.
pub mod Ranging
pub mod Values
pub mod Members
pub mod Groups
use koprobe.Prelude.{
  Option-cases, inl, inr, ◌≡◌, refl, Eq, ◌==◌, Option, none, some, List, [], ◌∷◌, arith,
  if◌then◌else◌, map,
}

abbrev pub Map {ℓ κ} : Type ℓ → Type κ → Type (ℓ ⊔ κ)
Map K V = List (K × V)

module _ {ℓ κ} {K : Type ℓ} {V : Type κ} where
  abbrev pub keys : Map K V → List K
  keys = map (λ e. e.0)

  abbrev pub values : Map K V → List V
  values = map (λ e. e.1)

module _ {ℓ κ} {K : Type ℓ} {V : Type κ} ⦃e : Eq K⦄ where
  -- `v, ok := m[k]`
  unfoldable pub lookup : K → Map K V → Option V
  lookup k [] = none
  lookup k ((key, value) ∷ rest) = if key == k then some value else lookup k rest

  -- the zero value `z` for a missing key
  abbrev pub lookup_or : V → K → Map K V → V
  lookup_or z k m = elim (lookup k m) [ none ↦ z | some v ↦ v ]

  -- `m[k] = v`
  unfoldable pub insert : K → V → Map K V → Map K V
  insert k v [] = (k, v) ∷ []
  insert k v ((key, old) ∷ rest) =
      if key == k then (key, v) ∷ rest else (key, old) ∷ insert k v rest

  pub lookup-insert :
      (k q : K) (new : V) (entries : Map K V)
      → lookup q (insert k new entries) ≡ (if k == q then some new else lookup q entries)
  unfolding insert lookup
  lookup-insert k q new [] = refl
  lookup-insert k q new ((key, _) ∷ rest) =
      ground (arith, lookup-insert k q new rest, e.same_iff key k, e.same_iff key q, e.same_iff k q)

  -- no key stands twice
  abbrev pub IsMap : Map K V → Type κ
  IsMap [] = Unit
  IsMap ((k, v) ∷ m) = (lookup k m ≡ none) × IsMap m

  pub insert-IsMap : (k : K) (v : V) (m : Map K V) → IsMap m → IsMap (insert k v m)
  unfolding lookup insert
  insert-IsMap k v [] h = (refl, tt)
  insert-IsMap k v ((j, w) ∷ m) h =
      ground (arith, insert-IsMap k v m, lookup-insert k j v m, e.same_iff j k, e.same_iff k j)

  -- `if _, ok := m[k]; !ok { m[k] = z }`
  unfoldable pub ensure : K → V → Map K V → Map K V
  ensure k z m = elim (lookup k m) [ none ↦ insert k z m | some _ ↦ m ]

  -- the value at `k`, made as `z` if it is missing, then changed in place through its pointer
  unfoldable pub change : K → V → (V → V) → Map K V → Map K V
  unfolding ensure
  change k z f m = let made = ensure k z m in insert k (f (lookup_or z k made)) made

  pub lookup-change :
      (k j : K) (z : V) (f : V → V) (m : Map K V)
      → lookup j (change k z f m) ≡ (if k == j then some (f (lookup_or z k m)) else lookup j m)
  unfolding change
  lookup-change k j z f m = elim (Option-cases (lookup k m)) [
    | inl h ↦ ground (
      arith,
      h,
      lookup-insert k j z m,
      lookup-insert k k z m,
      e.same_iff k k,
      lookup-insert k j (f z) (insert k z m),
    )
    | inr (v, h) ↦ ground (arith, h, lookup-insert k j (f v) m)
  ]

  ensure-IsMap : (k : K) (z : V) (m : Map K V) → IsMap m → IsMap (ensure k z m)
  unfolding ensure
  ensure-IsMap k z m h = ground (arith, insert-IsMap k z m h)

  pub change-IsMap : (k : K) (z : V) (f : V → V) (m : Map K V) → IsMap m → IsMap (change k z f m)
  unfolding change
  change-IsMap k z f m h = insert-IsMap k _ (ensure k z m) (ensure-IsMap k z m h)
