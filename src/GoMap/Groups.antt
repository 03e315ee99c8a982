-- ===== src/GoMap/Groups.antt =====
-- A loop that groups: `if _, ok := m[key]; !ok { m[key] = z }; add x to m[key]` for each element x.
use koprobe.Prelude.{
  ◌≡◌, refl, ap, ◌∙◌, ◌==◌, text_eq, Text, text_beq_sound, select, foldl, Option, none, some, List,
  [], ◌∷◌, Bool-cases, inl, inr,
}
use koprobe.GoMap.{Map, lookup, lookup_or, change, lookup-change, IsMap, change-IsMap}

module _ {A V : Type 0} (key : A → Text) (z : Text → V) (add : A → V → V) where
  unfoldable pub group : List A → Map Text V → Map Text V
  group [] m = m
  group (x ∷ xs) m = group xs (change (key x) (z (key x)) (add x) m)

  -- What elements of one key make of its entry.
  unfoldable pub grown : Text → Option V → List A → Option V
  grown k old [] = old
  grown k old (x ∷ xs) = grown k (some (add x (elim old [ none ↦ z k | some v ↦ v ]))) xs

  -- Each key's entry is made by its own elements, in their order.
  pub lookup-group :
      (k : Text) (xs : List A) (m : Map Text V)
      → lookup k (group xs m) ≡ grown k (lookup k m) (select (λ x. key x == k) xs)
  unfolding group grown
  lookup-group k [] m = refl
  lookup-group k (x ∷ xs) m =
      let rest = lookup-group k xs (change (key x) (z (key x)) (add x) m) in
      let now = lookup-change (key x) k (z (key x)) (add x) m in
      elim (Bool-cases (key x == k)) [
        | inl e ↦
            rw (grown, e)
              (rest
                ∙ ap (λ v. grown k v (select (λ y. key y == k) xs))
                    ((rw e at now)
                      ∙ ap (λ j. some (add x (lookup_or (z j) j m))) (text_beq_sound (key x) k e)))
        | inr e ↦ rw e (rest ∙ ap (λ v. grown k v (select (λ y. key y == k) xs)) (rw e at now))
      ]

  pub group-IsMap : (xs : List A) (m : Map Text V) → IsMap m → IsMap (group xs m)
  unfolding group
  group-IsMap [] m h = h
  group-IsMap (x ∷ xs) m h =
      group-IsMap xs (change (key x) (z (key x)) (add x) m)
        (change-IsMap (key x) (z (key x)) (add x) m h)

  pub grown-some :
      (k : Text) (v : V) (xs : List A) → grown k (some v) xs ≡ some (foldl (λ w x. add x w) v xs)
  unfolding grown
  grown-some k v [] = refl
  grown-some k v (x ∷ xs) = grown-some k (add x v) xs
