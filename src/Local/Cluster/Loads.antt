-- ===== src/Local/Cluster/Loads.antt =====
-- The loads of the simulated cluster are finite, and its multipliers positive.
use koprobe.Prelude.{ℕ, ◌≡◌, refl, true, false, ◌⊎◌, inl, inr, ltb_ℤ, pos, All}
use koprobe.Float.{Double}
use koprobe.Float.Laws.{IsOrdered, IsRounded, IsFinitary, IsPositive}
use koprobe.Local.Simulate.{PodProfile}
use koprobe.Local.Simulate.Loads.{is_plain, positive, HasLoads}
use koprobe.Local.Cluster.{build_cluster}

module _ {F : Type 0} ⦃d : Double F⦄ (ordered : IsOrdered F) (rounded : IsRounded F)
    (finitary : IsFinitary F) where
  plain : (m k : ℕ) → is_plain m k ≡ true → IsPositive (d.lit m k)
  plain = positive ordered rounded finitary

  steady :
      (p : PodProfile F)
      → IsPositive p.cpu_intensity
      → IsPositive p.network_intensity
      → IsPositive p.disk_intensity
      → IsPositive p.mem_intensity
      → (ltb_ℤ (pos 0) p.spike_every ≡ false) ⊎ IsPositive p.spike_multiplier
      → HasLoads p
  steady p cpu network disk mem multiplier = record {
    cpu = cpu.1;
    network = network.1;
    disk = disk.1;
    mem = mem.1;
    multiplier = multiplier;
  }

  pub build_cluster-All : All HasLoads (build_cluster {F = F})
  unfolding build_cluster
  build_cluster-All = (
    steady _ (plain 75 2 refl) (plain 80 2 refl) (plain 30 2 refl) (plain 60 2 refl)
        (inr (plain 32 1 refl)),
    (
      steady _ (plain 45 2 refl) (plain 50 2 refl) (plain 10 2 refl) (plain 40 2 refl)
          (inr (plain 21 1 refl)),
      (
        steady _ (plain 30 2 refl) (plain 35 2 refl) (plain 20 2 refl) (plain 35 2 refl) (inl refl),
        (
          steady _ (plain 60 2 refl) (plain 25 2 refl) (plain 55 2 refl) (plain 50 2 refl)
              (inr (plain 25 1 refl)),
          (
            steady _ (plain 95 2 refl) (plain 20 2 refl) (plain 80 2 refl) (plain 90 2 refl)
                (inr (plain 15 1 refl)),
            (
              steady _ (plain 55 2 refl) (plain 60 2 refl) (plain 70 2 refl) (plain 75 2 refl)
                  (inl refl),
              (
                steady _ (plain 70 2 refl) (plain 40 2 refl) (plain 15 2 refl) (plain 65 2 refl)
                    (inr (plain 28 1 refl)),
                (
                  steady _ (plain 25 2 refl) (plain 70 2 refl) (plain 5 2 refl) (plain 30 2 refl)
                      (inl refl),
                  (
                    steady _ (plain 15 2 refl) (plain 90 2 refl) (plain 10 2 refl) (plain 20 2 refl)
                        (inr (plain 18 1 refl)),
                    (
                      steady _ (plain 40 2 refl) (plain 55 2 refl) (plain 65 2 refl)
                          (plain 55 2 refl) (inl refl),
                      (
                        steady _ (plain 85 2 refl) (plain 30 2 refl) (plain 90 2 refl)
                            (plain 80 2 refl) (inr (plain 16 1 refl)),
                        (
                          steady _ (plain 4 2 refl) (plain 2 2 refl) (plain 1 2 refl)
                              (plain 50 2 refl) (inl refl),
                          (
                            steady _ (plain 3 2 refl) (plain 5 2 refl) (plain 2 2 refl)
                                (plain 40 2 refl) (inl refl),
                            tt,
                          ),
                        ),
                      ),
                    ),
                  ),
                ),
              ),
            ),
          ),
        ),
      ),
    ),
  )
