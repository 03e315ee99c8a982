-- ===== src/Local/Simulate/Tests.antt =====
-- One tick over one profile, with a source that counts and a sine that is always 0.
use koprobe.Prelude.{◌-ℤ◌, ◌+◌, ◌*◌, ◌≡◌, refl, codes, ℕ, ℤ, pos, [], ◌∷◌}
use koprobe.Float.Pico.{Pico, pico_double}
use koprobe.Local.Simulate.{PodProfile, Simulator, clamp, tick}

abbrev profile : PodProfile Pico
profile = record {
  pod_name = codes "web";
  namespace = codes "shop";
  team = codes "front";
  service = codes "web";
  feature = codes "home";
  environment = codes "production";
  cpu_intensity = pos 750_000_000_000;
  network_intensity = pos 800_000_000_000;
  disk_intensity = pos 300_000_000_000;
  mem_intensity = pos 600_000_000_000;
  spike_every = pos 90_000_000_000;
  spike_multiplier = pos 3_200_000_000_000;
  last_spike = pos 0;
}

abbrev draw : ℕ → Pico × ℕ
draw n = (pos (n * 100_000_000_000), n + 1)

abbrev sin : Pico → Pico
sin x = pos 0

abbrev idle : Simulator Pico ℕ
idle = record { pods = profile ∷ []; rng = 0; tick = 0 }

abbrev now : ℤ
now = pos 100_000_000_000

-- The profile spikes, and draws five numbers.
spiked :
    (tick draw sin now idle).1
    ≡ record { pods = record profile { last_spike = now } ∷ []; rng = 5; tick = 1 }
unfolding tick koprobe.Local.Simulate.generate_all koprobe.Local.Simulate.generate
    koprobe.Local.Simulate.spike koprobe.Local.Simulate.noise koprobe.Local.Simulate.elapsed ◌-ℤ◌
spiked = refl
