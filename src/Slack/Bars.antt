-- ===== src/Slack/Bars.antt =====
-- `buildBar`: ten cells, full ones first.
use koprobe.Prelude.{
  ℕ, zero, suc, ◌+◌, ◌-◌, ◌≡◌, refl, ap, ◌∙◌, Text, ltb_ℤ, ℤ, pos, pos_part, [], ◌∷◌, length, arith,
  if◌then◌else◌, Bool-cases, inl, inr,
}
use koprobe.Float.{Double, ◌⊗◌, ◌⊘◌, ◌≈◌, nought}
use koprobe.Slack.{bar_from, build_bar}

-- `size` cells of which the first `full` are full
unfoldable pub cells : ℕ → ℕ → Text
cells full zero = []
cells zero (suc size) = 9617 ∷ cells zero size
cells (suc full) (suc size) = 9608 ∷ cells full size

length-cells : (full size : ℕ) → length (cells full size) ≡ size
unfolding cells
length-cells full zero = refl
length-cells zero (suc size) = ap suc (length-cells zero size)
length-cells (suc full) (suc size) = ap suc (length-cells full size)

bar_from-eq-cells :
    (filled : ℤ) (i left : ℕ) → bar_from filled i left ≡ cells (pos_part filled - i) left
unfolding bar_from cells
bar_from-eq-cells filled i zero = refl
bar_from-eq-cells filled i (suc left) = elim (Bool-cases (ltb_ℤ (pos i) filled)) [
  | inl e ↦
      let more : pos_part filled - i ≡ suc (pos_part filled - (i + 1)) = ground arith in
      rw (e, more) (ap (◌∷◌ 9608) (bar_from-eq-cells filled (i + 1) left))
  | inr e ↦
      let done : pos_part filled - i ≡ 0 = ground arith in
      let later : pos_part filled - (i + 1) ≡ 0 = omega arith in
      rw (e, done) (ap (◌∷◌ 9617) (bar_from-eq-cells filled (i + 1) left ∙ (rw later)))
]

module _ {F : Type 0} ⦃d : Double F⦄ where
  open d use {trunc, lit}

  -- A bar has ten cells. They are full from the left, as many as the integer part of ten times the
  -- share, none if it is negative or the total is 0, and all ten if it is more.
  pub build_bar-eq-cells :
      (value total : F)
      → (length (build_bar value total) ≡ 10)
        × (build_bar value total ≡ (
            if total ≈ nought
            then cells 0 10
            else cells (pos_part (trunc (value ⊘ total ⊗ lit 10 0))) 10))
  unfolding build_bar
  build_bar-eq-cells value total = elim (Bool-cases (total ≈ nought)) [
    | inl e ↦ (rw (build_bar, e), rw e (unfold cells in refl))
    | inr e ↦
        let same = bar_from-eq-cells (trunc (value ⊘ total ⊗ lit 10 0)) 0 10 in
        (
          rw (build_bar, e) (ap length same ∙ length-cells _ 10),
          rw e (same ∙ ap (λ k. cells k 10) (omega arith)),
        )
  ]
