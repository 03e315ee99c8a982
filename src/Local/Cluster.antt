-- ===== src/Local/Cluster.antt =====
-- cmd/local/main.go: the simulated cluster.
pub mod Loads
use koprobe.Prelude.{
  ℕ, ◌*◌, ◌-◌, ◌^◌, Text, codes, ℤ, pos, negsuc, Option, none, some, List, [], ◌∷◌,
}
use koprobe.Float.{Double, nought}
use koprobe.Local.Simulate.{PodProfile, Simulator}

-- the zero value of `time.Time`: the start of the year 1, in nanoseconds since 1970
abbrev pub zero_time : ℤ
zero_time = negsuc (62_135_596_800 * 10 ^ 9 - 1)

module _ {F : Type 0} ⦃d : Double F⦄ where
  open d use {lit}

  -- a literal of the list; the seconds and the multiplier of spikes are 0 where they are left out
  abbrev profile :
      (pod_name namespace team service feature environment : Text) (cpu network disk mem : F)
      → Option (ℕ × F)
      → PodProfile F
  profile pod_name namespace team service feature environment cpu network disk mem spikes = record {
    pod_name = pod_name;
    namespace = namespace;
    team = team;
    service = service;
    feature = feature;
    environment = environment;
    cpu_intensity = cpu;
    network_intensity = network;
    disk_intensity = disk;
    mem_intensity = mem;
    spike_every = elim spikes [ none ↦ pos 0 | some (seconds, _) ↦ pos (seconds * 10 ^ 9) ];
    spike_multiplier = elim spikes [ none ↦ nought | some (_, m) ↦ m ];
    last_spike = zero_time;
  }

  unfoldable pub build_cluster : List (PodProfile F)
  build_cluster =
      profile (codes "payment-api-7d9f2") (codes "production") (codes "backend")
        (codes "payment-api") (codes "checkout") (codes "production") (lit 75 2) (lit 80 2)
        (lit 30 2) (lit 60 2) (some (90, (lit 32 1)))
      ∷ profile (codes "auth-service-abc12") (codes "production") (codes "backend")
          (codes "auth-service") (codes "login") (codes "production") (lit 45 2) (lit 50 2)
          (lit 10 2) (lit 40 2) (some (120, (lit 21 1)))
      ∷ profile (codes "user-service-def34") (codes "production") (codes "backend")
          (codes "user-service") (codes "profile") (codes "production") (lit 30 2) (lit 35 2)
          (lit 20 2) (lit 35 2) none
      ∷ profile (codes "order-worker-ghi56") (codes "production") (codes "backend")
          (codes "order-worker") (codes "orders") (codes "production") (lit 60 2) (lit 25 2)
          (lit 55 2) (lit 50 2) (some (60, (lit 25 1)))
      ∷ profile (codes "model-training-jkl78") (codes "ml") (codes "ml") (codes "training-job")
          (codes "recommendations") (codes "production") (lit 95 2) (lit 20 2) (lit 80 2) (lit 90 2)
          (some (45, (lit 15 1)))
      ∷ profile (codes "feature-store-mno90") (codes "ml") (codes "ml") (codes "feature-store")
          (codes "recommendations") (codes "production") (lit 55 2) (lit 60 2) (lit 70 2) (lit 75 2)
          none
      ∷ profile (codes "inference-pqr12") (codes "ml") (codes "ml") (codes "inference")
          (codes "recommendations") (codes "production") (lit 70 2) (lit 40 2) (lit 15 2) (lit 65 2)
          (some (75, (lit 28 1)))
      ∷ profile (codes "web-app-stu34") (codes "production") (codes "frontend") (codes "web-app")
          (codes "homepage") (codes "production") (lit 25 2) (lit 70 2) (lit 5 2) (lit 30 2) none
      ∷ profile (codes "cdn-proxy-vwx56") (codes "production") (codes "frontend")
          (codes "cdn-proxy") (codes "assets") (codes "production") (lit 15 2) (lit 90 2) (lit 10 2)
          (lit 20 2) (some (100, (lit 18 1)))
      ∷ profile (codes "kafka-consumer-yza12") (codes "data") (codes "data")
          (codes "kafka-consumer") (codes "analytics") (codes "production") (lit 40 2) (lit 55 2)
          (lit 65 2) (lit 55 2) none
      ∷ profile (codes "spark-driver-bcd34") (codes "data") (codes "data") (codes "spark")
          (codes "etl") (codes "production") (lit 85 2) (lit 30 2) (lit 90 2) (lit 80 2)
          (some (50, (lit 16 1)))
      ∷ profile (codes "legacy-worker-zzz99") (codes "production") (codes "backend")
          (codes "legacy-worker") (codes "deprecated") (codes "production") (lit 4 2) (lit 2 2)
          (lit 1 2) (lit 50 2) none
      ∷ profile (codes "staging-api-xyz00") (codes "staging") (codes "frontend") (codes "web-app")
          (codes "homepage") (codes "staging") (lit 3 2) (lit 5 2) (lit 2 2) (lit 40 2) none
      ∷ []

  -- `NewSimulator`, with the random source that the clock seeds
  unfoldable pub new_simulator : {R : Type 0} → R → Simulator F R
  new_simulator rng = record { pods = build_cluster; rng = rng; tick = 0 }
