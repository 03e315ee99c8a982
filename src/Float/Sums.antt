-- ===== src/Float/Sums.antt =====
-- `total := 0.0; for ... { total += part }`, as the loops of internal/aggregator/aggregator.go,
-- internal/exporter/api.go and cmd/local/main.go add up, and the same for each key of a map,
-- `m[key] += part`.
use mathlib.Core.List.{append-nil, append_assoc}
use koprobe.Prelude.{
  ◌≡◌, refl, sym, ap, ◌∙◌, ◌==◌, text_eq, Text, select, foldl, Option, none, some, List, [], ◌∷◌,
  ◌++◌, Bool-cases, inl, inr, text_beq_sound, select-append,
}
use koprobe.Float.{Double, ◌⊕◌, nought}
use koprobe.GoMap.{Map, lookup, lookup_or, insert, lookup-insert, IsMap, insert-IsMap}

-- the elements with a key, in order
abbrev pub with_key : {A : Type 0} → (A → Text) → Text → List A → List A
with_key key k = select (λ x. key x == k)

module _ {F A : Type 0} ⦃d : Double F⦄ where
  -- numbers added up from 0 in the order of a list
  unfoldable pub sum : (A → F) → List A → F
  sum part xs = foldl (λ acc x. acc ⊕ part x) nought xs

  foldl-snoc :
      (part : A → F) (xs : List A) (x : A) (acc : F)
      → foldl (λ a k. a ⊕ part k) acc (xs ++ (x ∷ [])) ≡ foldl (λ a k. a ⊕ part k) acc xs ⊕ part x
  foldl-snoc part [] x acc = refl
  foldl-snoc part (y ∷ xs) x acc = foldl-snoc part xs x (acc ⊕ part y)

  pub sum-snoc :
      (part : A → F) (xs : List A) (x : A) → sum part (xs ++ (x ∷ [])) ≡ sum part xs ⊕ part x
  unfolding sum
  sum-snoc part xs x = foldl-snoc part xs x nought

  -- `m[key(x)] += part(x)`
  unfoldable pub add_at : (A → Text) → (A → F) → Map Text F → A → Map Text F
  add_at key part m x = insert (key x) (lookup_or nought (key x) m ⊕ part x) m

  unfoldable pub tally : (A → Text) → (A → F) → List A → Map Text F
  tally key part xs = foldl (add_at key part) [] xs

  -- a key's sum: none without elements
  unfoldable pub sum_of : (A → F) → List A → Option F
  sum_of part [] = none
  sum_of part (x ∷ xs) = some (sum part (x ∷ xs))

  pub sum_of-eq-sum :
      (part : A → F) (xs : List A)
      → elim (sum_of part xs) [ none ↦ nought | some v ↦ v ] ≡ sum part xs
  unfolding sum_of sum
  sum_of-eq-sum part [] = refl
  sum_of-eq-sum part (x ∷ xs) = refl

  add_at_sum :
      (part : A → F) (xs : List A) (x : A) (k : Text) (m : Map Text F)
      → lookup k m ≡ sum_of part xs
      → some (lookup_or nought k m ⊕ part x) ≡ sum_of part (xs ++ (x ∷ []))
  unfolding sum_of
  add_at_sum part [] x k m h = rw (h, lookup_or) (unfold sum in refl)
  add_at_sum part (y ∷ xs) x k m h = rw (h, lookup_or) (ap some (sym (sum-snoc part (y ∷ xs) x)))

  lookup-add_at :
      (key : A → Text) (part : A → F) (k : Text) (m : Map Text F) (before : List A) (x : A)
      → lookup k m ≡ sum_of part (with_key key k before)
      → lookup k (add_at key part m x) ≡ sum_of part (with_key key k (before ++ (x ∷ [])))
  unfolding add_at
  lookup-add_at key part k m before x h =
      let new = lookup-insert (key x) k (lookup_or nought (key x) m ⊕ part x) m in
      let later = select-append (λ y. key y == k) before (x ∷ []) in
      elim (Bool-cases (key x == k)) [
        | inl e ↦
            (rw e at new)
            ∙ ap (λ j. some (lookup_or nought j m ⊕ part x)) (text_beq_sound (key x) k e)
            ∙ add_at_sum part (with_key key k before) x k m h
            ∙ sym (ap (sum_of part) (rw e at later))
        | inr e ↦
            (rw e at new)
            ∙ h
            ∙ sym (ap (sum_of part) (rw (e, append-nil (with_key key k before)) at later))
      ]

  lookup-foldl :
      (key : A → Text) (part : A → F) (k : Text) (m : Map Text F) (before xs : List A)
      → lookup k m ≡ sum_of part (with_key key k before)
      → lookup k (foldl (add_at key part) m xs) ≡ sum_of part (with_key key k (before ++ xs))
  lookup-foldl key part k m before [] h =
      h ∙ ap (λ l. sum_of part (with_key key k l)) (sym (append-nil before))
  lookup-foldl key part k m before (x ∷ xs) h =
      lookup-foldl key part k (add_at key part m x) (before ++ (x ∷ [])) xs
        (lookup-add_at key part k m before x h)
      ∙ ap (λ l. sum_of part (with_key key k l)) (append_assoc before (x ∷ []) xs)

  -- The entry of a key adds up the elements with that key, in their order.
  pub lookup-tally :
      (key : A → Text) (part : A → F) (k : Text) (xs : List A)
      → lookup k (tally key part xs) ≡ sum_of part (with_key key k xs)
  unfolding tally
  lookup-tally key part k xs = lookup-foldl key part k [] [] xs (unfold lookup sum_of in refl)

  foldl-IsMap :
      (key : A → Text) (part : A → F) (xs : List A) (m : Map Text F)
      → IsMap m
      → IsMap (foldl (add_at key part) m xs)
  unfolding add_at
  foldl-IsMap key part [] m h = h
  foldl-IsMap key part (x ∷ xs) m h =
      foldl-IsMap key part xs (add_at key part m x)
        (insert-IsMap (key x) (lookup_or nought (key x) m ⊕ part x) m h)

  pub tally-IsMap : (key : A → Text) (part : A → F) (xs : List A) → IsMap (tally key part xs)
  unfolding tally
  tally-IsMap key part xs = foldl-IsMap key part xs [] tt
