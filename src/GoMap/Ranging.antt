-- ===== src/GoMap/Ranging.antt =====
-- `range m`: a loop visits every entry once, in an order that Go does not specify. `Order` stands
-- for the order that one loop takes; whatever it is, it rearranges the entries.
use mathlib.Core.List.{Permᴰ, reverse}
use mathlib.Core.List.Permᴰ as PermD
use mathlib.Core.Path.{subst, subst₂}
use koprobe.Prelude.{
  All, Option-cases, Bool-cases, inl, inr, Option, ◌==◌, if◌then◌else◌, ◌++◌, ◌≡◌, refl, sym, ◌∙◌,
  Eq, none, some, List, [], ◌∷◌, arith,
}
use koprobe.GoMap.{Map, lookup, insert, lookup-insert, IsMap, insert-IsMap}

pub record Order {ℓ} (A : Type ℓ) : Type ℓ where
  pub visit : List A → List A
  pub visit-perm : (xs : List A) → Permᴰ xs (visit xs)

module _ {ℓ} {A : Type ℓ} where
  pub nil-perm : {xs ys : List A} → Permᴰ xs ys → xs ≡ [] → ys ≡ []
  nil-perm Permᴰ.nil h = refl
  nil-perm (Permᴰ.cons p r) h = ground arith
  nil-perm (Permᴰ.swap p q) h = ground arith
  nil-perm (Permᴰ.trans p q) h = nil-perm q (nil-perm p h)

  pub visit-nil : (order : Order A) → order.visit [] ≡ []
  visit-nil order = nil-perm (order.visit-perm []) refl

module _ {ℓ κ} {K : Type ℓ} {V : Type κ} ⦃e : Eq K⦄ where
  swap_lookup :
      (k : K) (a b : K × V) (m : Map K V)
      → lookup a.0 (b ∷ m) ≡ none
      → lookup k (a ∷ b ∷ m) ≡ lookup k (b ∷ a ∷ m)
  unfolding lookup
  swap_lookup k a b m h = ground (arith, e.same_iff b.0 a.0, e.same_iff a.0 k, e.same_iff b.0 k)

  swap_IsMap : (a b : K × V) (m : Map K V) → IsMap (a ∷ b ∷ m) → IsMap (b ∷ a ∷ m)
  unfolding lookup
  swap_IsMap a b m h = ground (arith, e.same_iff b.0 a.0, e.same_iff a.0 b.0)

  cons_lookup :
      (k : K) (a : K × V) (xs ys : Map K V)
      → lookup k xs ≡ lookup k ys
      → lookup k (a ∷ xs) ≡ lookup k (a ∷ ys)
  unfolding lookup
  cons_lookup k a xs ys h = ground arith

  -- Rearranged entries are a map again, with the same lookups.
  pub lookup-perm :
      {xs ys : Map K V} → Permᴰ xs ys → IsMap xs → IsMap ys × ((k : K) → lookup k xs ≡ lookup k ys)
  lookup-perm Permᴰ.nil h = (tt, λ k. refl)
  lookup-perm (Permᴰ.cons {a = a} {b = b} {l₁ = xs} {l₂ = ys} p r) h =
      let (d, same) = lookup-perm r h.1 in
      subst (λ c. IsMap (c ∷ ys) × ((k : K) → lookup k (a ∷ xs) ≡ lookup k (c ∷ ys))) p
        ((sym (same a.0) ∙ h.0, d), λ k. cons_lookup k a xs ys (same k))
  lookup-perm (Permᴰ.swap {a = a} {b = b} {l = m} p q) h =
      subst₂ (λ c d. IsMap (d ∷ c ∷ m) × ((k : K) → lookup k (a ∷ b ∷ m) ≡ lookup k (d ∷ c ∷ m))) p
        q (swap_IsMap a b m h, λ k. swap_lookup k a b m h.0)
  lookup-perm (Permᴰ.trans p q) h =
      let (d, same) = lookup-perm p h in
      let (d', same') = lookup-perm q d in (d', λ k. same k ∙ same' k)

  -- one `m[k] = v` for each entry of a list
  unfoldable pub insert_all : Map K V → List (K × V) → Map K V
  insert_all m [] = m
  insert_all m ((k, v) ∷ xs) = insert_all (insert k v m) xs

  pub lookup-insert_all :
      (k : K) (m xs : Map K V)
      → IsMap xs
      → lookup k (insert_all m xs) ≡ (elim (lookup k xs) [ none ↦ lookup k m | some v ↦ some v ])
  unfolding insert_all lookup
  lookup-insert_all k m [] h = refl
  lookup-insert_all k m ((j, v) ∷ xs) h =
      ground (arith, lookup-insert_all k (insert j v m) xs, lookup-insert j k v m, e.same_iff j k)

  -- the last entry with a key
  abbrev pub last_for : K → List (K × V) → Option V
  last_for k [] = none
  last_for k ((j, v) ∷ xs) = elim (last_for k xs) [
    | some w ↦ some w
    | none ↦ if j == k then some v else none
  ]

  -- Of the entries with one key the last is kept, also where keys repeat.
  pub lookup-insert_all_last :
      (k : K) (m : Map K V) (xs : List (K × V))
      → lookup k (insert_all m xs) ≡ (elim (last_for k xs) [ none ↦ lookup k m | some v ↦ some v ])
  unfolding insert_all
  lookup-insert_all_last k m [] = refl
  lookup-insert_all_last k m ((j, v) ∷ xs) =
      ground (arith, lookup-insert_all_last k (insert j v m) xs, lookup-insert j k v m)

  -- What holds of every entry holds of the last one with a key.
  pub last_for-All {ι} :
      (P : K × V → Type ι) (k : K) (xs : List (K × V)) {v : V}
      → All P xs
      → last_for k xs ≡ some v
      → P (k, v)
  last_for-All P k [] h q = absurd (none-ne-some q)
    where
      none-ne-some : {v : V} → none ≡ some v → ⊥
      none-ne-some q = cc q
  last_for-All P k ((j, w) ∷ xs) {v} h q = elim (Option-cases (last_for k xs)) [
    | inl e ↦ last_for_here (rw e at q)
    | inr (u, e) ↦ last_for-All P k xs h.1 (e ∙ (rw e at q))
  ]
    where
      last_for_here : (if j == k then some w else none) ≡ some v → P (k, v)
      last_for_here q = elim (Bool-cases (j == k)) [
        | inl s ↦
            let same : j ≡ k = (e.same_iff j k).0 s in
            let value : w ≡ v = ground (arith, s) in subst₂ (λ a b. P (a, b)) same value h.0
        | inr s ↦ absurd (ground (arith, s))
      ]

  pub insert_all-append :
      (m : Map K V) (xs ys : List (K × V))
      → insert_all m (xs ++ ys) ≡ insert_all (insert_all m xs) ys
  unfolding insert_all
  insert_all-append m [] ys = refl
  insert_all-append m ((k, v) ∷ xs) ys = insert_all-append (insert k v m) xs ys

  pub insert_all-IsMap : (m xs : Map K V) → IsMap m → IsMap (insert_all m xs)
  unfolding insert_all
  insert_all-IsMap m [] h = h
  insert_all-IsMap m ((k, v) ∷ xs) h = insert_all-IsMap (insert k v m) xs (insert-IsMap k v m h)

-- The entries in the order in which the model stores them, and backwards: two orders of a loop.
abbrev pub forwards {ℓ} : {A : Type ℓ} → Order A
forwards = record { visit = λ xs. xs; visit-perm = PermD.refl }

abbrev pub backwards {ℓ} : {A : Type ℓ} → Order A
backwards = record { visit = reverse; visit-perm = λ xs. PermD.symm (PermD.reverse xs) }
