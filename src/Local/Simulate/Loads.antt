-- ===== src/Local/Simulate/Loads.antt =====
-- The signs of what a tick of the simulator costs, where the random source and the sine are finite.
use koprobe.Prelude.{
  Bool, ltb, leb, ℕ, ◌<◌, ◌^◌, ◌≡◌, ◌⊎◌, refl, true, false, ◌&&◌, ltb_ℤ, pos, arith, Bool-cases,
  inl, inr,
}
use koprobe.Float.{Double, ◌⊕◌, ◌⊖◌, ◌⊗◌, ◌⊘◌, ◌≺◌, ◌≈◌, nought}
use koprobe.Float.Laws.{IsOrdered, IsRounded, IsFinitary, IsNonneg, IsPositive, IsFinite}
use koprobe.Local.{PodMetrics}
use koprobe.Local.Simulate.{PodProfile, clamp, round_to, metrics_of}

-- The random numbers are finite where the simulator scales them, and so is the sine of a finite
-- number; a count of ticks that fits an `int` is finite where its sine is taken.
pub record IsSource {F R : Type 0} ⦃d : Double F⦄ (draw : R → F × R) (sin : F → F) : Type 0 where
  pub noise_finite : (rng : R) → IsFinite (((draw rng).0 ⊖ d.lit 5 1) ⊗ d.lit 15 2)
  pub small_finite : (rng : R) → IsFinite ((((draw rng).0 ⊖ d.lit 5 1) ⊗ d.lit 15 2) ⊗ d.lit 8 2)
  pub wave_finite : (x : F) → IsFinite x → IsFinite (d.lit 25 2 ⊗ sin x)
  pub phase_finite : (n : ℕ) → n < 2 ^ 63 → IsFinite (d.of_ℤ (pos n) ⊘ d.lit 18 0)

-- A profile's loads are finite, and a multiplier that is used is positive.
pub record HasLoads {F : Type 0} ⦃d : Double F⦄ (p : PodProfile F) : Type 0 where
  pub cpu : IsFinite p.cpu_intensity
  pub network : IsFinite p.network_intensity
  pub disk : IsFinite p.disk_intensity
  pub mem : IsFinite p.mem_intensity
  pub multiplier : (ltb_ℤ (pos 0) p.spike_every ≡ false) ⊎ IsPositive p.spike_multiplier

-- The costs of a pod are at least 0.
pub record IsNonnegMetrics {F : Type 0} ⦃d : Double F⦄ (m : PodMetrics F) : Type 0 where
  pub cpu : IsNonneg m.cpu_cost
  pub memory : IsNonneg m.memory_cost
  pub network : IsNonneg m.network_cost
  pub disk : IsNonneg m.disk_cost
  pub total : IsNonneg m.total_cost

-- a constant of the source that rounds to a positive number
abbrev pub is_plain : ℕ → ℕ → Bool
is_plain m k = ltb 0 m && ltb m (2 ^ 53) && leb k 6

of_positive : {F : Type 0} ⦃d : Double F⦄ (x : F) → IsPositive x → IsNonneg x
of_positive x h = ground (arith, h.0)

module _ {F : Type 0} ⦃d : Double F⦄ (ordered : IsOrdered F) (rounded : IsRounded F)
    (finitary : IsFinitary F) where
  open d use {lit}

  pub positive : (m k : ℕ) → is_plain m k ≡ true → IsPositive (lit m k)
  positive m k h =
      rounded.lit_positive m k (ground (arith, h)) (ground (arith, h)) (ground (arith, h))

  times : (x : F) (m k : ℕ) → is_plain m k ≡ true → IsNonneg x → IsNonneg (x ⊗ lit m k)
  times x m k a h = rounded.mul_nonneg x (lit m k) h (positive m k a)

  pub plus : (x y : F) → IsNonneg x → IsNonneg y → IsNonneg (x ⊕ y)
  plus = rounded.add_nonneg

  pub clamp-IsNonneg : (v : F) → (v ≈ v) ≡ true → IsNonneg (clamp v)
  unfolding clamp
  clamp-IsNonneg v h =
      let low = positive 5 2 refl in
      let one = positive 1 0 refl in
      let low_eq = finitary.number_of_finite (lit 5 2) low.1 in
      elim (Bool-cases (v ≺ lit 5 2)) [
        | inl e ↦ rw (clamp, e) (of_positive (lit 5 2) low)
        | inr e ↦ elim (Bool-cases (lit 1 0 ≺ v)) [
          | inl f ↦ rw (clamp, e, f) (of_positive (lit 1 0) one)
          | inr f ↦ elim (ordered.lt_total v (lit 5 2) h low_eq) [
            | inl l ↦ absurd (cc (e, l))
            | inr l ↦
                let above = ordered.lt_of_lt_of_le nought (lit 5 2) v low.0 l in
                rw (clamp, e, f) (ground (arith, above))
          ]
        ]
      ]

  round_to-IsNonneg :
      (v : F) (decimals : ℕ)
      → is_plain (10 ^ decimals) 0 ≡ true
      → IsNonneg v
      → IsNonneg (round_to v decimals)
  unfolding round_to
  round_to-IsNonneg v decimals k h =
      let p = positive (10 ^ decimals) 0 k in
      rounded.div_nonneg _ _ (finitary.round_nonneg _ (rounded.mul_nonneg _ _ h p)) p

  pub metrics_of-IsNonnegMetrics :
      (p : PodProfile F) (cpu net disk mem : F)
      → IsNonneg cpu
      → IsNonneg net
      → IsNonneg disk
      → IsNonneg mem
      → IsNonnegMetrics (metrics_of p cpu net disk mem)
  unfolding metrics_of
  metrics_of-IsNonnegMetrics p cpu net disk mem hc hn hd hm =
      let window =
        finitary.lit_div_positive 15 3600 (omega arith) (omega arith) (omega arith) (omega arith)
          (omega arith) in
      let cpu_b = times cpu 8 0 refl hc in
      let cpu_cost = rounded.mul_nonneg _ _ (times _ 48 6 refl cpu_b) window in
      let mem_gb = times mem 4 0 refl hm in
      let mem_cost = rounded.mul_nonneg _ _ (times _ 125 4 refl mem_gb) window in
      let net_e = times net 5 2 refl hn in
      let net_i = times _ 3 1 refl net_e in
      let net_az = times _ 2 1 refl net_e in
      let net_cost = plus _ _ (times _ 9 2 refl net_i) (times _ 1 2 refl net_az) in
      let disk_r = times disk 2 0 refl hd in
      let disk_w = times disk 15 1 refl hd in
      let disk_cost = plus _ _ (times _ 5 3 refl disk_r) (times _ 10 3 refl disk_w) in
      record {
        cpu = round_to-IsNonneg _ 6 refl cpu_cost;
        memory = round_to-IsNonneg _ 6 refl mem_cost;
        network = round_to-IsNonneg _ 6 refl net_cost;
        disk = round_to-IsNonneg _ 6 refl disk_cost;
        total =
            round_to-IsNonneg _ 6 refl
              (plus _ _ (plus _ _ (plus _ _ cpu_cost mem_cost) net_cost) disk_cost);
      }
