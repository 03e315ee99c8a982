-- ===== src/Api/Recent.antt =====
-- `handleHistory` over a run whose clock never goes back.
mod Tests
use koprobe.Prelude.{
  ℕ, suc, zero, ◌+◌, ◌-◌, ◌≤◌, Bool, true, false, Bool-cases, inl, inr, ◌≡◌, refl, sym, ap, ◌∙◌,
  Text, ℤ, ltb_ℤ, ◌-ℤ◌, ◌+ℤ◌, int64, pos, All, select, length-select-le, All-imp, All-drop, map,
  length, drop, length-drop, drop-drop, List, [], ◌∷◌, arith, if◌then◌else◌,
}
use koprobe.Float.{Double, ◌⊗◌}
use koprobe.Window.{suffix}
use koprobe.Aggregator.{Snapshot, Aggregator, history_since}
use koprobe.Aggregator.Runs.{Run}
use koprobe.Aggregator.History.{history-eq-suffix}
use koprobe.Api.{duration, point, history}

module _ {A : Type 0} (p : A → Bool) where
  -- if the test holds of an element, it holds of all later ones
  abbrev IsUpward : List A → Type 0
  IsUpward [] = Unit
  IsUpward (x ∷ xs) = (p x ≡ true → All (λ y. p y ≡ true) xs) × IsUpward xs

  select_all : (xs : List A) → All (λ y. p y ≡ true) xs → select p xs ≡ xs
  select_all [] h = refl
  select_all (x ∷ xs) h = rw h.0 (ap (λ l. x ∷ l) (select_all xs h.1))

  select-eq-suffix : (xs : List A) → IsUpward xs → select p xs ≡ suffix (length (select p xs)) xs
  select-eq-suffix [] h = refl
  select-eq-suffix (x ∷ xs) h = elim (Bool-cases (p x)) [
    | inl e ↦
        let none_left : suc (length xs) - suc (length xs) ≡ 0 = omega arith in
        rw (e, select_all xs (h.0 e), none_left) refl
    | inr e ↦
        let one_more : suc (length xs) - length (select p xs)
            ≡ suc (length xs - length (select p xs)) =
          omega (arith, length-select-le p xs) in
        rw e (select-eq-suffix xs h.1 ∙ sym (ap (λ k. drop k (x ∷ xs)) one_more))
  ]

suffix-suffix :
    {A : Type 0} (n limit : ℕ) (xs : List A)
    → n ≤ length (suffix limit xs)
    → suffix n (suffix limit xs) ≡ suffix n xs
suffix-suffix n limit xs h =
    drop-drop (length (suffix limit xs) - n) (length xs - limit) xs
    ∙ ap (λ k. drop k xs) (omega (arith, h, length-drop (length xs - limit) xs))

module _ {F : Type 0} ⦃d : Double F⦄ where
  -- no snapshot is older than one before it
  abbrev pub IsInOrder : List (Snapshot F) → Type 0
  IsInOrder [] = Unit
  IsInOrder (s ∷ snaps) = All (λ t. ltb_ℤ t.timestamp s.timestamp ≡ false) snaps × IsInOrder snaps

  IsInOrder-drop : (n : ℕ) (snaps : List (Snapshot F)) → IsInOrder snaps → IsInOrder (drop n snaps)
  IsInOrder-drop zero snaps h = h
  IsInOrder-drop (suc n) [] h = tt
  IsInOrder-drop (suc n) (s ∷ snaps) h = IsInOrder-drop n snaps h.1

  -- whether a snapshot is younger than a cut-off
  abbrev pub is_after : ℤ → Snapshot F → Bool
  is_after cut s = ltb_ℤ cut s.timestamp

  is_after-IsUpward :
      (cut : ℤ) (snaps : List (Snapshot F)) → IsInOrder snaps → IsUpward (is_after cut) snaps
  is_after-IsUpward cut [] h = tt
  is_after-IsUpward cut (s ∷ snaps) h = (
    λ e. All-imp _ (λ t. is_after cut t ≡ true) snaps (λ t k. ground (arith, e, k)) h.0,
    is_after-IsUpward cut snaps h.1,
  )

  -- what a query asks for, in nanoseconds: 24 hours, or its own number of hours in 64 bits
  abbrev pub asked_hours : (Text → F) → Text → ℤ
  asked_hours scan [] = pos 86_400_000_000_000
  asked_hours scan (c ∷ cs) = int64 (d.trunc (scan (c ∷ cs) ⊗ d.lit 3_600_000_000_000 0))

  duration-eq-asked_hours :
      (scan : Text → F) (hours : Text) → duration scan hours ≡ asked_hours scan hours
  unfolding duration
  duration-eq-asked_hours scan [] = refl
  duration-eq-asked_hours scan (c ∷ cs) = refl

  -- Over every run of the daemon whose clock never goes back, the answer to a query for the history is
  -- its newest part without gaps: as many of the last snapshots as there are, among the last 5760,
  -- younger than the cut-off, each with its time and its total, in their order. The cut-off is the
  -- clock plus the negative of the hours asked for, 24 without a number, in nanoseconds and both in 64
  -- bits; so this covers a number of hours that does not fit, whatever the machine makes of it.
  pub history-eq-map-suffix :
      {snaps : List (Snapshot F)} {a : Aggregator F} (scan : Text → F) (hours : Text) (now : ℤ)
      → Run snaps a
      → IsInOrder snaps
      → history scan hours now a
        ≡ map
            (λ s. record { time = s.timestamp; cost = s.total })
            (suffix
              (length (
                select
                  (is_after (now +ℤ int64 (pos 0 -ℤ asked_hours scan hours)))
                  (suffix 5760 snaps)))
              snaps)
  unfolding history history_since
  history-eq-map-suffix {snaps = snaps} scan hours now r h =
      let cut = now +ℤ int64 (pos 0 -ℤ asked_hours scan hours) in
      let last = suffix 5760 snaps in
      let upward = is_after-IsUpward cut last (IsInOrder-drop (length snaps - 5760) snaps h) in
      let since = duration-eq-asked_hours scan hours in
      ap (λ l. map point (select (is_after (now +ℤ int64 (pos 0 -ℤ duration scan hours))) l))
        (history-eq-suffix r)
      ∙ ap (λ t. map point (select (is_after (now +ℤ int64 (pos 0 -ℤ t))) last)) since
      ∙ ap (map point) (select-eq-suffix (is_after cut) last upward)
      ∙ ap (map point) (
          suffix-suffix (length (select (is_after cut) last)) 5760 snaps
            (length-select-le (is_after cut) last))
