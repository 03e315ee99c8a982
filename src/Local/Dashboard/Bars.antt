-- ===== src/Local/Dashboard/Bars.antt =====
-- The bar of a team, of twenty cells.
use koprobe.Prelude.{
  ℕ, zero, suc, ◌+◌, ◌-◌, ◌≡◌, refl, ap, ltb, ltb_ℤ, ◌-ℤ◌, ℤ, pos, negsuc, pos_part, Bool, not,
  ◌&&◌, none, some, ◌∷◌, ◌++◌, arith, if◌then◌else◌, Bool-cases, inl, inr,
}
use koprobe.Local.Pages.{copies}
use koprobe.Slack.Bars.{cells}
use koprobe.Local.Dashboard.{full_cell, empty_cell, repeat, bar_of}

-- between none and twenty cells
abbrev pub fits : ℤ → Bool
fits bar_len = not (ltb_ℤ bar_len (pos 0)) && not (ltb_ℤ (pos 20) bar_len)

copies-append-eq-cells :
    (full left size : ℕ)
    → full + left ≡ size
    → copies full full_cell ++ copies left empty_cell ≡ cells full size
unfolding copies cells
copies-append-eq-cells zero zero zero h = refl
copies-append-eq-cells zero zero (suc size) h = ground arith
copies-append-eq-cells zero (suc left) zero h = ground arith
copies-append-eq-cells zero (suc left) (suc size) h =
    ap (◌∷◌ empty_cell) (copies-append-eq-cells zero left size (omega arith))
copies-append-eq-cells (suc full) left zero h = ground arith
copies-append-eq-cells (suc full) left (suc size) h =
    ap (◌∷◌ full_cell) (copies-append-eq-cells full left size (omega arith))

pub bar_of-eq-cells :
    (bar_len : ℤ)
    → bar_of bar_len ≡ (if fits bar_len then some (cells (pos_part bar_len) 20) else none)
unfolding bar_of repeat ◌-ℤ◌
bar_of-eq-cells (negsuc n) = ground arith
bar_of-eq-cells (pos n) = elim (Bool-cases (ltb 20 n)) [
  | inl e ↦ ground arith
  | inr e ↦
      let within : n + (20 - n) ≡ 20 = ground arith in
      let all = copies-append-eq-cells n (20 - n) 20 within in ground (arith, all)
]
