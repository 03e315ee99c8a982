-- ===== src/Local/Simulate.antt =====
-- cmd/local/main.go: the simulator. The random source is a parameter, `draw`, from its state to the
-- number that `rng.Float64` gives and the next state, and so is `math.Sin`. A profile's pointer is
-- held by the simulator alone, so a tick gives the profiles back.
pub mod Ticks
pub mod Loads
pub mod Signs
pub mod Tests
use koprobe.Prelude.{
  ℕ, ◌+◌, ◌-◌, ◌^◌, ◌≡◌, Bool, ◌&&◌, Text, ℤ, pos, negsuc, ltb_ℤ, ◌-ℤ◌, List, [], ◌∷◌,
  if◌then◌else◌,
}
use koprobe.Float.{Double, ◌⊕◌, ◌⊖◌, ◌⊗◌, ◌⊘◌, ◌≺◌, nought}
use koprobe.Local.{PodMetrics}

pub record PodProfile (F : Type 0) : Type 0 where
  pub pod_name : Text
  pub namespace : Text
  pub team : Text
  pub service : Text
  pub feature : Text
  pub environment : Text
  pub cpu_intensity : F
  pub network_intensity : F
  pub disk_intensity : F
  pub mem_intensity : F
  pub spike_every : ℤ
  pub spike_multiplier : F
  pub last_spike : ℤ

pub record Simulator (F R : Type 0) : Type 0 where
  pub pods : List (PodProfile F)
  pub rng : R
  pub tick : ℕ

-- `now.Sub(then)`, which stays within the 64 bits of a duration
unfoldable pub elapsed : ℤ → ℤ → ℤ
elapsed now before =
    let gap = now -ℤ before in
    if ltb_ℤ (pos (2 ^ 63 - 1)) gap
    then pos (2 ^ 63 - 1)
    else if ltb_ℤ gap (negsuc (2 ^ 63 - 1))
    then negsuc (2 ^ 63 - 1)
    else gap

module _ {F : Type 0} ⦃d : Double F⦄ where
  open d use {lit, of_ℤ, round}

  unfoldable pub clamp : F → F
  clamp v = if v ≺ lit 5 2 then lit 5 2 else if lit 1 0 ≺ v then lit 1 0 else v

  unfoldable pub round_to : F → ℕ → F
  round_to v decimals = let p = lit (10 ^ decimals) 0 in round (v ⊗ p) ⊘ p

  -- The metrics of a profile for given loads: from `cpuB := cpu * 8.0` to the return.
  unfoldable pub metrics_of : PodProfile F → F → F → F → F → PodMetrics F
  unfolding round_to
  metrics_of p cpu net disk mem =
      let window = lit 15 0 ⊘ lit 3600 0 in
      let cpu_b = cpu ⊗ lit 8 0 in
      let mem_gb = mem ⊗ lit 4 0 in
      let net_e = net ⊗ lit 5 2 in
      let net_i = net_e ⊗ lit 3 1 in
      let net_az = net_e ⊗ lit 2 1 in
      let disk_r = disk ⊗ lit 2 0 in
      let disk_w = disk ⊗ lit 15 1 in
      let cpu_cost = cpu_b ⊗ lit 48 6 ⊗ window in
      let mem_cost = mem_gb ⊗ lit 125 4 ⊗ window in
      let net_cost = net_i ⊗ lit 9 2 ⊕ net_az ⊗ lit 1 2 in
      let disk_cost = disk_r ⊗ lit 5 3 ⊕ disk_w ⊗ lit 10 3 in
      let requested = p.cpu_intensity ⊗ lit 8 0 ⊗ lit 15 1 in
      let util_pct = if nought ≺ requested then (cpu_b ⊘ requested) ⊗ lit 100 0 else nought in
      let wasted =
        if util_pct ≺ lit 20 0 then cpu_cost ⊗ (lit 1 0 ⊖ util_pct ⊘ lit 100 0) else nought in
      record {
        pod_name = p.pod_name;
        namespace = p.namespace;
        team = p.team;
        service = p.service;
        feature = p.feature;
        environment = p.environment;
        cpu_cycles_billion = round_to cpu_b 3;
        memory_gb_hours = round_to (mem_gb ⊗ window) 5;
        network_egress_gb = round_to net_e 5;
        network_cross_az_gb = round_to net_az 5;
        network_internet_gb = round_to net_i 5;
        disk_read_miops = round_to disk_r 3;
        disk_write_miops = round_to disk_w 3;
        cpu_util_pct = round_to util_pct 1;
        wasted_dollars = round_to wasted 6;
        cpu_cost = round_to cpu_cost 6;
        memory_cost = round_to mem_cost 6;
        network_cost = round_to net_cost 6;
        disk_cost = round_to disk_cost 6;
        total_cost = round_to (cpu_cost ⊕ mem_cost ⊕ net_cost ⊕ disk_cost) 6;
      }

  module _ {R : Type 0} (draw : R → F × R) (sin : F → F) where
    -- the multiplier, the profile and the source after the test for a spike
    unfoldable pub spike : ℤ → PodProfile F → R → F × PodProfile F × R
    unfolding elapsed
    spike now p rng =
        let (x, later) = draw rng in
        if ltb_ℤ (pos 0) p.spike_every && ltb_ℤ p.spike_every (elapsed now p.last_spike)
        then if x ≺ lit 12 2
          then (p.spike_multiplier, record p { last_spike = now }, later)
          else (lit 1 0, p, later)
        else (lit 1 0, p, rng)

    unfoldable pub noise : R → F × R
    noise rng = let (x, later) = draw rng in ((x ⊖ lit 5 1) ⊗ lit 15 2, later)

    unfoldable pub generate : ℕ → ℤ → PodProfile F → R → PodMetrics F × PodProfile F × R
    unfolding spike noise clamp metrics_of
    generate tick now p rng =
        let (mult, p', r) = spike now p rng in
        let wave = lit 25 2 ⊗ sin (of_ℤ (pos tick) ⊘ lit 18 0) in
        let (n₁, r₁) = noise r in
        let (n₂, r₂) = noise r₁ in
        let (n₃, r₃) = noise r₂ in
        let (n₄, r₄) = noise r₃ in
        let cpu = clamp (p.cpu_intensity ⊕ wave ⊕ n₁) ⊗ mult in
        let net = clamp (p.network_intensity ⊕ n₂) ⊗ mult in
        let disk = clamp (p.disk_intensity ⊕ n₃) ⊗ mult in
        let mem = clamp (p.mem_intensity ⊕ n₄ ⊗ lit 8 2) in (metrics_of p' cpu net disk mem, p', r₄)

    -- the loop of `Tick`
    unfoldable pub generate_all :
        ℕ → ℤ → List (PodProfile F) → R → List (PodMetrics F) × List (PodProfile F) × R
    unfolding generate
    generate_all tick now [] rng = ([], [], rng)
    generate_all tick now (p ∷ ps) rng =
        let (m, p', r) = generate tick now p rng in
        let (ms, ps', r') = generate_all tick now ps r in (m ∷ ms, p' ∷ ps', r')

    unfoldable pub tick : ℤ → Simulator F R → List (PodMetrics F) × Simulator F R
    unfolding generate_all
    tick now s =
        let n = s.tick + 1 in
        let (out, pods, rng) = generate_all n now s.pods s.rng in
        (out, record { pods = pods; rng = rng; tick = n })
