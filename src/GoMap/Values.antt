-- ===== src/GoMap/Values.antt =====
-- Properties that every value of a map has, through the operations on maps.
use mathlib.Core.List.{Permᴰ}
use mathlib.Core.Path.{subst}
use koprobe.Prelude.{
  ◌≡◌, Eq, ◌==◌, some, List, [], ◌∷◌, All, arith, Bool-cases, Option-cases, inl, inr,
}
use koprobe.GoMap.{IsMap, Map, lookup, lookup_or, insert, ensure, change, values}
use koprobe.GoMap.Ranging.{insert_all}

abbrev pub AllValues {ℓ κ ι} : {K : Type ℓ} {V : Type κ} → (V → Type ι) → List (K × V) → Type ι
AllValues P = All (λ e. P e.1)

module _ {ℓ ι} {A : Type ℓ} (P : A → Type ι) where
  pub All-perm : {xs ys : List A} → Permᴰ xs ys → All P xs → All P ys
  All-perm Permᴰ.nil h = tt
  All-perm (Permᴰ.cons p r) h = (subst P p h.0, All-perm r h.1)
  All-perm (Permᴰ.swap p q) h = (subst P q h.1.0, (subst P p h.0, h.1.1))
  All-perm (Permᴰ.trans p q) h = All-perm q (All-perm p h)

module _ {ℓ κ ι} {K : Type ℓ} {V : Type κ} (P : V → Type ι) where
  pub All-values : (m : Map K V) → AllValues P m → All P (values m)
  All-values [] h = tt
  All-values (e ∷ m) h = (h.0, All-values m h.1)

module _ {ℓ κ ι} {K : Type ℓ} {V : Type κ} ⦃e : Eq K⦄ (P : V → Type ι) where
  pub insert-AllValues :
      (k : K) (v : V) (m : Map K V) → P v → AllValues P m → AllValues P (insert k v m)
  unfolding insert
  insert-AllValues k v [] p h = (p, tt)
  insert-AllValues k v ((j, w) ∷ m) p h = elim (Bool-cases (j == k)) [
    | inl q ↦ rw q (p, h.1)
    | inr q ↦ rw q (h.0, insert-AllValues k v m p h.1)
  ]

  pub lookup-AllValues : (k : K) (m : Map K V) {v : V} → AllValues P m → lookup k m ≡ some v → P v
  unfolding lookup
  lookup-AllValues k [] h q = absurd (cc q)
  lookup-AllValues k ((j, w) ∷ m) h q = elim (Bool-cases (j == k)) [
    | inl s ↦ subst P (ground arith) h.0
    | inr s ↦ lookup-AllValues k m h.1 (rw s at q)
  ]

  pub ensure-AllValues :
      (k : K) (z : V) (m : Map K V) → P z → AllValues P m → AllValues P (ensure k z m)
  unfolding ensure
  ensure-AllValues k z m p h = elim (Option-cases (lookup k m)) [
    | inl q ↦ rw (ensure, q) (insert-AllValues k z m p h)
    | inr (v, q) ↦ rw (ensure, q) h
  ]

  pub lookup_or-AllValues :
      (k : K) (z : V) (m : Map K V) → P z → AllValues P m → P (lookup_or z k m)
  lookup_or-AllValues k z m p h = elim (Option-cases (lookup k m)) [
    | inl q ↦ rw (lookup_or, q) p
    | inr (v, q) ↦ rw (lookup_or, q) (lookup-AllValues k m h q)
  ]

  pub change-AllValues :
      (k : K) (z : V) (f : V → V) (m : Map K V)
      → P z
      → ((v : V) → P v → P (f v))
      → AllValues P m
      → AllValues P (change k z f m)
  unfolding change
  change-AllValues k z f m p keep h =
      let made = ensure-AllValues k z m p h in
      insert-AllValues k _ (ensure k z m) (keep _ (lookup_or-AllValues k z (ensure k z m) p made))
        made

  pub insert_all-AllValues :
      (m xs : Map K V) → AllValues P m → AllValues P xs → AllValues P (insert_all m xs)
  unfolding insert_all
  insert_all-AllValues m [] h k = h
  insert_all-AllValues m ((j, v) ∷ xs) h k =
      insert_all-AllValues (insert j v m) xs (insert-AllValues j v m k.0 h) k.1

  -- what holds of every lookup holds of every value
  pub AllValues-of_lookup :
      (m : Map K V) → IsMap m → ((k : K) (v : V) → lookup k m ≡ some v → P v) → AllValues P m
  AllValues-of_lookup [] h p = tt
  AllValues-of_lookup ((k, v) ∷ m) h p =
      (p k v here, AllValues-of_lookup m h.1 λ j w q. p j w (later j w q))
    where
      here : lookup k ((k, v) ∷ m) ≡ some v
      here = unfold lookup in ground (arith, e.same_iff k k)

      later : (j : K) (w : V) → lookup j m ≡ some w → lookup j ((k, v) ∷ m) ≡ some w
      later j w q = unfold lookup in ground (arith, h.0, q, e.same_iff k j)
