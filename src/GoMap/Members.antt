-- ===== src/GoMap/Members.antt =====
-- The entries that a loop over a map meets are those that lookups find, each once.
use mathlib.Core.List.{Permᴰ, Memᴰ}
use mathlib.Core.Path.{ap₂}
use koprobe.Prelude.{
  All, Option-cases, refl, Bool-cases, inl, inr, ◌==◌, ◌≡◌, sym, ap, ◌∙◌, Eq, some, List, [], ◌∷◌,
  arith,
}
use koprobe.GoMap.{Map, lookup, IsMap}
use koprobe.GoMap.Ranging.{Order, last_for, lookup-perm}

module _ {ℓ} {A : Type ℓ} where
  pub Memᴰ-perm : {xs ys : List A} {a : A} → Permᴰ xs ys → Memᴰ a xs → Memᴰ a ys
  Memᴰ-perm Permᴰ.nil m = m
  Memᴰ-perm (Permᴰ.cons p r) (Memᴰ.head e) = Memᴰ.head (e ∙ p)
  Memᴰ-perm (Permᴰ.cons p r) (Memᴰ.tail m) = Memᴰ.tail (Memᴰ-perm r m)
  Memᴰ-perm (Permᴰ.swap p q) (Memᴰ.head e) = Memᴰ.tail (Memᴰ.head (e ∙ p))
  Memᴰ-perm (Permᴰ.swap p q) (Memᴰ.tail (Memᴰ.head e)) = Memᴰ.head (e ∙ q)
  Memᴰ-perm (Permᴰ.swap p q) (Memᴰ.tail (Memᴰ.tail m)) = Memᴰ.tail (Memᴰ.tail m)
  Memᴰ-perm (Permᴰ.trans p q) m = Memᴰ-perm q (Memᴰ-perm p m)

  -- what holds of each element holds of all
  pub All-mem {ι} : (P : A → Type ι) (xs : List A) → ((x : A) → Memᴰ x xs → P x) → All P xs
  All-mem P [] h = tt
  All-mem P (x ∷ xs) h = (h x (Memᴰ.head refl), All-mem P xs (λ y m. h y (Memᴰ.tail m)))

module _ {ℓ κ} {K : Type ℓ} {V : Type κ} ⦃e : Eq K⦄ where
  lookup_of_mem : {k : K} {v : V} (m : Map K V) → IsMap m → Memᴰ (k, v) m → lookup k m ≡ some v
  unfolding lookup
  lookup_of_mem [] h t = elim t [ ]
  lookup_of_mem {k} {v} ((j, w) ∷ m) h (Memᴰ.head p) =
      let key = ap (λ x. x.0) p in
      let value = ap (λ x. x.1) p in ground (arith, key, value, e.same_iff j k)
  lookup_of_mem {k} {v} ((j, w) ∷ m) h (Memᴰ.tail t) =
      ground (arith, h.0, lookup_of_mem m h.1 t, e.same_iff j k)

  mem_of_lookup : (k : K) (v : V) (m : Map K V) → lookup k m ≡ some v → Memᴰ (k, v) m
  unfolding lookup
  mem_of_lookup k v [] h = ground arith
  mem_of_lookup k v ((j, w) ∷ m) h = elim (Bool-cases (j == k)) [
    | inl s ↦
        let value : w ≡ v = ground arith in
        let key : j ≡ k = ground (arith, e.same_iff j k) in
        Memᴰ.head (ap₂ (λ a b. (a, b)) (sym key) (sym value))
    | inr s ↦ Memᴰ.tail (mem_of_lookup k v m (ground arith))
  ]

  -- In whatever order, a loop over a map meets exactly the entries of its lookups.
  pub visit_iff :
      (order : Order (K × V)) (m : Map K V)
      → IsMap m
      → (k : K) (v : V)
      → (Memᴰ (k, v) (order.visit m) → lookup k m ≡ some v)
        × (lookup k m ≡ some v → Memᴰ (k, v) (order.visit m))
  visit_iff order m h k v =
      let (d, same) = lookup-perm (order.visit-perm m) h in
      (
        λ t. same k ∙ lookup_of_mem (order.visit m) d t,
        λ f. mem_of_lookup k v (order.visit m) (sym (same k) ∙ f),
      )

  -- an entry with a key makes for a last one
  pub mem-last_for :
      (k : K) (v : V) (xs : List (K × V)) → Memᴰ (k, v) xs → (w : V) × (last_for k xs ≡ some w)
  mem-last_for k v [] m = elim m [ ]
  mem-last_for k v ((j, u) ∷ xs) (Memᴰ.head p) = elim (Option-cases (last_for k xs)) [
    | inr (w, q) ↦ (w, rw q refl)
    | inl q ↦ let same = (e.same_iff j k).1 (sym (ap (λ x. x.0) p)) in (u, rw (q, same) refl)
  ]
  mem-last_for k v ((j, u) ∷ xs) (Memᴰ.tail m) =
      let (w, q) = mem-last_for k v xs m in (w, rw q refl)
