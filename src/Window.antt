-- ===== src/Window.antt =====
-- A list that keeps its last elements: `s = append(s, x); if len(s) > limit { s = s[1:] }`, as the
-- histories of internal/aggregator/aggregator.go and cmd/local/main.go are kept.
use koprobe.Prelude.{
  true, false, ℕ, suc, min, ◌+◌, ◌-◌, ◌≡◌, ◌≤◌, ◌<◌, sym, ap, ◌∙◌, ltb, Bool-cases, inl, inr, List,
  [], ◌∷◌, ◌++◌, some, length, drop, last?, length-append, length-drop, drop-append_le, drop-drop,
  last?-append_singleton, arith, if◌then◌else◌,
}

module _ {ℓ} {A : Type ℓ} where
  -- `if len(s) > limit { s = s[1:] }`
  unfoldable pub trim : ℕ → List A → List A
  trim limit xs = if ltb limit (length xs) then drop 1 xs else xs

  -- The last `limit` elements.
  abbrev pub suffix : ℕ → List A → List A
  suffix limit xs = drop (length xs - limit) xs

  pub length-suffix : (limit : ℕ) (xs : List A) → length (suffix limit xs) ≡ min limit (length xs)
  length-suffix limit xs = omega (arith, length-drop (length xs - limit) xs)

  pub length-suffix-le : (limit : ℕ) (xs : List A) → length (suffix limit xs) ≤ limit
  length-suffix-le limit xs = omega (arith, length-drop (length xs - limit) xs)

  trim_of_le : (limit : ℕ) (ys : List A) → length ys ≤ limit → trim limit ys ≡ suffix limit ys
  unfolding trim
  trim_of_le limit ys h =
      let none_cut : length ys - limit ≡ 0 = omega arith in
      let small : ltb limit (length ys) ≡ false = ground arith in rw (small, none_cut)

  trim_of_lt : (limit : ℕ) (ys : List A) → limit < length ys → trim limit ys ≡ drop 1 ys
  unfolding trim
  trim_of_lt limit ys h = let large : ltb limit (length ys) ≡ true = ground arith in rw large

  -- Appending to the last `limit` elements of a list and trimming gives those of the longer list.
  pub trim-suffix-append :
      (limit : ℕ) (xs : List A) (x : A)
      → trim limit (suffix limit xs ++ (x ∷ [])) ≡ suffix limit (xs ++ (x ∷ []))
  trim-suffix-append limit xs x =
      let ys = xs ++ (x ∷ []) in
      let k = length xs - limit in
      let size = length-append xs (x ∷ []) in
      let shift : suffix limit xs ++ (x ∷ []) ≡ drop k ys =
        sym (drop-append_le k xs (x ∷ []) (omega arith)) in
      elim (Bool-cases (ltb (length xs) limit)) [
        | inl few ↦
            let k_eq : length xs - limit ≡ 0 = ground arith in
            let short : length ys ≤ limit = ground (arith, size) in
            rw k_eq (trim_of_le limit ys short)
        | inr many ↦
            let fits : limit ≤ length xs = ground arith in
            let next : k + 1 ≡ length ys - limit = omega (arith, size) in
            ap (trim limit) shift
            ∙ trim_of_lt limit (drop k ys) (omega (arith, size, length-drop k ys))
            ∙ drop-drop 1 k ys
            ∙ ap (λ j. drop j ys) next
      ]

  -- If at least one element is kept, the last one is.
  pub last?-suffix :
      (limit : ℕ) (xs : List A) (x : A) → last? (suffix (suc limit) (xs ++ (x ∷ []))) ≡ some x
  last?-suffix limit xs x =
      let k : length (xs ++ (x ∷ [])) - suc limit ≡ length xs - limit =
        omega (arith, length-append xs (x ∷ [])) in
      ap (λ j. last? (drop j (xs ++ (x ∷ [])))) k
      ∙ ap last? (drop-append_le (length xs - limit) xs (x ∷ []) (omega arith))
      ∙ last?-append_singleton (drop (length xs - limit) xs) x
