-- ===== src/Local/Simulate/Ticks.antt =====
-- What a tick of the simulator keeps, and the bounds of a load.
use mathlib.Core.Path.{ap₂}
use koprobe.Prelude.{
  ◌+◌, ◌≡◌, refl, ap, true, Text, ℕ, ℤ, pos, map, List, [], ◌∷◌, arith, Bool-cases, inl, inr,
}
use koprobe.Float.{Double, ◌≺◌, ◌≈◌, le}
use koprobe.Float.Laws.{IsOrdered}
use koprobe.Local.{PodMetrics}
use koprobe.Local.Simulate.{
  PodProfile, Simulator, clamp, metrics_of, spike, generate, generate_all, tick,
}

-- whose costs metrics are
abbrev pub Identity : Type 0
Identity = Text × Text × Text × Text × Text × Text

module _ {F : Type 0} ⦃d : Double F⦄ where
  open d use {lit}

  abbrev pub measured : PodMetrics F → Identity
  measured m = (m.pod_name, m.namespace, m.team, m.service, m.feature, m.environment)

  abbrev pub profiled : PodProfile F → Identity
  profiled p = (p.pod_name, p.namespace, p.team, p.service, p.feature, p.environment)

  -- a profile less the instant of its last spike
  abbrev pub settings : PodProfile F → PodProfile F
  settings p = record p { last_spike = pos 0 }

  module _ {R : Type 0} (draw : R → F × R) (sin : F → F) where
    spike-settings :
        (now : ℤ) (p : PodProfile F) (rng : R) → settings (spike draw sin now p rng).1 ≡ settings p
    unfolding spike
    spike-settings now p rng = ground arith

    generate-keeps :
        (n : ℕ) (now : ℤ) (p : PodProfile F) (rng : R)
        → (measured (generate draw sin n now p rng).0 ≡ profiled p)
          × (settings (generate draw sin n now p rng).1 ≡ settings p)
    unfolding generate metrics_of
    generate-keeps n now p rng = let same = spike-settings now p rng in (ap profiled same, same)

    generate_all-keeps :
        (n : ℕ) (now : ℤ) (ps : List (PodProfile F)) (rng : R)
        → (map measured (generate_all draw sin n now ps rng).0 ≡ map profiled ps)
          × (map settings (generate_all draw sin n now ps rng).1 ≡ map settings ps)
    unfolding generate_all
    generate_all-keeps n now [] rng = (refl, refl)
    generate_all-keeps n now (p ∷ ps) rng =
        let (one, set) = generate-keeps n now p rng in
        let later = (generate draw sin n now p rng).2 in
        let (all, sets) = generate_all-keeps n now ps later in
        (ap₂ (λ a b. a ∷ b) one all, ap₂ (λ a b. a ∷ b) set sets)

    -- A tick gives one record of metrics for each profile, in the order of the profiles and under the
    -- profile's own names, whatever the random numbers; and it changes nothing of a profile but the
    -- instant of its last spike.
    pub tick-map :
        (now : ℤ) (s : Simulator F R)
        → (map measured (tick draw sin now s).0 ≡ map profiled s.pods)
          × (map settings (tick draw sin now s).1.pods ≡ map settings s.pods)
          × ((tick draw sin now s).1.tick ≡ s.tick + 1)
    unfolding tick
    tick-map now s =
        let (names, sets) = generate_all-keeps (s.tick + 1) now s.pods s.rng in (names, sets, refl)

  -- A load that is a number, not NaN, is clamped to between 0.05 and 1, where numbers are ordered and
  -- these two constants are numbers, the first at most the second.
  pub clamp-le :
      IsOrdered F
      → (lit 5 2 ≈ lit 5 2) ≡ true
      → (lit 1 0 ≈ lit 1 0) ≡ true
      → le (lit 5 2) (lit 1 0) ≡ true
      → (v : F) → (v ≈ v) ≡ true
      → (le (lit 5 2) (clamp v) ≡ true) × (le (clamp v) (lit 1 0) ≡ true)
  unfolding clamp
  clamp-le laws low_eq high_eq both v v_eq =
      let low : le (lit 5 2) (lit 5 2) ≡ true = ground arith in
      let high : le (lit 1 0) (lit 1 0) ≡ true = ground arith in
      elim (Bool-cases (v ≺ lit 5 2)) [
        | inl e ↦ (rw (clamp, e) low, rw (clamp, e) both)
        | inr e ↦ elim (Bool-cases (lit 1 0 ≺ v)) [
          | inl f ↦ (rw (clamp, e, f) both, rw (clamp, e, f) high)
          | inr f ↦ (
            elim (laws.lt_total v (lit 5 2) v_eq low_eq) [
              | inl l ↦ ground arith
              | inr l ↦ rw (clamp, e, f) l
            ],
            elim (laws.lt_total (lit 1 0) v high_eq v_eq) [
              | inl l ↦ ground arith
              | inr l ↦ rw (clamp, e, f) l
            ],
          )
        ]
      ]
