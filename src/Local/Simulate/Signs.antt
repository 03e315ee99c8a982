-- ===== src/Local/Simulate/Signs.antt =====
-- The signs of what a tick of the simulator costs, over any cluster of finite loads.
use koprobe.Prelude.{
  ℕ, ◌+◌, ◌<◌, ◌^◌, ◌≡◌, refl, true, ◌&&◌, ltb_ℤ, ℤ, pos, All, List, [], ◌∷◌, arith, Bool-cases,
  inl, inr,
}
use koprobe.Float.{Double, ◌⊕◌, ◌⊗◌, ◌≺◌, ◌≈◌}
use koprobe.Float.Laws.{IsOrdered, IsRounded, IsFinitary, IsNonneg, IsPositive, IsFinite}
use koprobe.Local.Simulate.{
  PodProfile, Simulator, clamp, spike, noise, elapsed, generate, generate_all, tick,
}
use koprobe.Local.Simulate.Loads.{
  IsSource, HasLoads, IsNonnegMetrics, positive, clamp-IsNonneg, metrics_of-IsNonnegMetrics,
}

module _ {F : Type 0} ⦃d : Double F⦄ (ordered : IsOrdered F) (rounded : IsRounded F)
    (finitary : IsFinitary F) {R : Type 0} (draw : R → F × R) (sin : F → F)
    (source : IsSource draw sin) where
  open d use {lit, of_ℤ}

  spiked-HasLoads :
      (now : ℤ) (p : PodProfile F) → HasLoads p → HasLoads (record p { last_spike = now })
  spiked-HasLoads now p h = record {
    cpu = h.cpu;
    network = h.network;
    disk = h.disk;
    mem = h.mem;
    multiplier = h.multiplier;
  }

  spike-IsPositive :
      (now : ℤ) (p : PodProfile F) (rng : R)
      → HasLoads p
      → IsPositive (spike draw sin now p rng).0 × HasLoads (spike draw sin now p rng).1
  unfolding spike
  spike-IsPositive now p rng h =
      let one = positive ordered rounded finitary 1 0 refl in
      elim (Bool-cases
        (ltb_ℤ (pos 0) p.spike_every && ltb_ℤ p.spike_every (elapsed now p.last_spike))) [
          | inr e ↦ rw (spike, e) (one, h)
          | inl e ↦ elim (Bool-cases ((draw rng).0 ≺ lit 12 2)) [
            | inr f ↦ rw (spike, e, f) (one, h)
            | inl f ↦ elim h.multiplier [
              | inl never ↦ absurd (ground (arith, e, never))
              | inr m ↦ rw (spike, e, f) (m, spiked-HasLoads now p h)
            ]
          ]
        ]

  load :
      (x n : F) (mult : F)
      → (x ≈ x) ≡ true
      → IsFinite n
      → IsPositive mult
      → IsNonneg (clamp (x ⊕ n) ⊗ mult)
  load x n mult h k m =
      rounded.mul_nonneg _ mult
        (clamp-IsNonneg ordered rounded finitary (x ⊕ n) (finitary.add_number x n h k)) m

  generate-IsNonnegMetrics :
      (n : ℕ) (now : ℤ) (p : PodProfile F) (rng : R)
      → n < 2 ^ 63
      → HasLoads p
      → IsNonnegMetrics (generate draw sin n now p rng).0
        × HasLoads (generate draw sin n now p rng).1
  unfolding generate noise
  generate-IsNonnegMetrics n now p rng fits h =
      let (mult, same) = spike-IsPositive now p rng h in
      let number : (x : F) → IsFinite x → (x ≈ x) ≡ true = finitary.number_of_finite in
      let wave = source.wave_finite _ (source.phase_finite n fits) in
      (
        metrics_of-IsNonnegMetrics ordered rounded finitary (spike draw sin now p rng).1 _ _ _ _
            (load _ _ _ (finitary.add_number _ _ (number _ h.cpu) wave) (source.noise_finite _)
              mult)
            (load _ _ _ (number _ h.network) (source.noise_finite _) mult)
            (load _ _ _ (number _ h.disk) (source.noise_finite _) mult)
            (clamp-IsNonneg ordered rounded finitary _
              (finitary.add_number _ _ (number _ h.mem) (source.small_finite _))),
        same,
      )

  generate_all-All :
      (n : ℕ) (now : ℤ) (ps : List (PodProfile F)) (rng : R)
      → n < 2 ^ 63
      → All HasLoads ps
      → All IsNonnegMetrics (generate_all draw sin n now ps rng).0
        × All HasLoads (generate_all draw sin n now ps rng).1
  unfolding generate_all
  generate_all-All n now [] rng fits h = (tt, tt)
  generate_all-All n now (p ∷ ps) rng fits h =
      let (one, kept) = generate-IsNonnegMetrics n now p rng fits h.0 in
      let (rest, keeps) = generate_all-All n now ps (generate draw sin n now p rng).2 fits h.1 in
      ((one, rest), (kept, keeps))

  -- A tick over profiles with finite loads gives metrics whose costs are all at least 0, and leaves
  -- such profiles, as long as the number of ticks fits an `int`, for a source and a sine as `IsSource` says, and where numbers
  -- are ordered and round as `IsOrdered`, `IsRounded` and `IsFinitary` say.
  pub tick-All :
      (now : ℤ) (s : Simulator F R)
      → s.tick + 1 < 2 ^ 63
      → All HasLoads s.pods
      → All IsNonnegMetrics (tick draw sin now s).0 × All HasLoads (tick draw sin now s).1.pods
  unfolding tick
  tick-All now s fits h = generate_all-All (s.tick + 1) now s.pods s.rng fits h
