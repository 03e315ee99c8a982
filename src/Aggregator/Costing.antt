-- ===== src/Aggregator/Costing.antt =====
-- The cost of one pod: the body of the loop of `collect` over the raw metrics, from the pod's metadata
-- to its waste.
use koprobe.Prelude.{◌*◌, ◌^◌, nat_eq, text_eq, Text, ℤ, pos, ltb_ℤ, ◌-ℤ◌, if◌then◌else◌}
use koprobe.Float.{Double, ◌⊕◌, ◌⊖◌, ◌⊗◌, ◌⊘◌, nought}
use koprobe.Collector.{RawMetrics}
use koprobe.Enricher.{PodInfo}
use koprobe.Pricing.{ResourcePrices}

pub record PodCost (F : Type 0) : Type 0 where
  pub pod_name : Text
  pub namespace : Text
  pub node_name : Text
  pub team : Text
  pub service : Text
  pub feature : Text
  pub cost_center : Text
  pub environment : Text
  pub period_start : ℤ
  pub period_end : ℤ
  pub cpu_cycles_billion : F
  pub memory_gb_hours : F
  pub network_egress_gb : F
  pub network_cross_az_gb : F
  pub network_internet_gb : F
  pub disk_read_miops : F
  pub disk_write_miops : F
  pub cpu_requested_millis : ℤ
  pub memory_requested_mb : ℤ
  pub cpu_cost : F
  pub memory_cost : F
  pub network_cost : F
  pub disk_cost : F
  pub total_cost : F
  pub cpu_utilization_pct : F
  pub memory_utilization_pct : F
  pub wasted_dollars : F

-- 15 seconds, in nanoseconds
abbrev pub window : ℤ
window = pos (15 * 10 ^ 9)

module _ {F : Type 0} ⦃d : Double F⦄ where
  open d use {lit, of_ℕ, of_ℤ}

  -- `window.Hours()`: no whole hours, and the nanoseconds over those of an hour
  abbrev window_hours : F
  window_hours = of_ℕ 0 ⊕ of_ℕ (15 * 10 ^ 9) ⊘ lit (3600 * 10 ^ 9) 0

  abbrev gb : F
  gb = lit (2 ^ 30) 0

  -- the metadata and the period, all numbers being 0
  abbrev pub unpriced : ℤ → PodInfo → PodCost F
  unpriced now pod = record {
    pod_name = pod.pod_name;
    namespace = pod.namespace;
    node_name = pod.node_name;
    team = pod.team_label;
    service = pod.service_label;
    feature = pod.feature_label;
    cost_center = pod.cost_center;
    environment = pod.environment;
    period_start = now -ℤ window;
    period_end = now;
    cpu_cycles_billion = nought;
    memory_gb_hours = nought;
    network_egress_gb = nought;
    network_cross_az_gb = nought;
    network_internet_gb = nought;
    disk_read_miops = nought;
    disk_write_miops = nought;
    cpu_requested_millis = pos 0;
    memory_requested_mb = pos 0;
    cpu_cost = nought;
    memory_cost = nought;
    network_cost = nought;
    disk_cost = nought;
    total_cost = nought;
    cpu_utilization_pct = nought;
    memory_utilization_pct = nought;
    wasted_dollars = nought;
  }

  -- from counters to the units of the prices
  unfoldable pub convert : RawMetrics → PodCost F → PodCost F
  convert m c = record c {
    cpu_cycles_billion = of_ℕ m.cpu_cycles ⊘ lit (10 ^ 9) 0;
    memory_gb_hours = (of_ℕ m.memory_bytes_avg ⊘ gb) ⊗ window_hours;
    network_egress_gb = of_ℕ m.network_egress_bytes ⊘ gb;
    network_cross_az_gb = of_ℕ m.network_cross_az_bytes ⊘ gb;
    network_internet_gb = of_ℕ m.network_internet_bytes ⊘ gb;
    disk_read_miops = of_ℕ m.disk_read_iops ⊘ lit (10 ^ 6) 0;
    disk_write_miops = of_ℕ m.disk_write_iops ⊘ lit (10 ^ 6) 0;
  }

  unfoldable pub apply_prices : ResourcePrices F → PodCost F → PodCost F
  apply_prices p c =
      let cpu = c.cpu_cycles_billion ⊗ p.cpu_cost_per_billion_cycles_hour ⊗ window_hours in
      let memory = c.memory_gb_hours ⊗ p.memory_cost_per_gb_hour in
      let network =
        c.network_internet_gb ⊗ p.network_internet_egress_per_gb
        ⊕ c.network_cross_az_gb ⊗ p.network_cross_az_per_gb in
      let disk =
        c.disk_read_miops ⊗ p.disk_read_cost_per_miops
        ⊕ c.disk_write_miops ⊗ p.disk_write_cost_per_miops in
      record c {
        cpu_cost = cpu;
        memory_cost = memory;
        network_cost = network;
        disk_cost = disk;
        total_cost = cpu ⊕ memory ⊕ network ⊕ disk;
      }

  unfoldable pub add_waste : RawMetrics → PodCost F → PodCost F
  add_waste m c =
      let used = c.cpu_cycles_billion ⊗ lit 1000 0 in
      let percent = used ⊘ of_ℤ m.cpu_requested_millis ⊗ lit 100 0 in
      if ltb_ℤ (pos 0) m.cpu_requested_millis
      then record c {
        cpu_utilization_pct = percent;
        wasted_dollars = c.wasted_dollars ⊕ c.cpu_cost ⊗ (lit 1 0 ⊖ percent ⊘ lit 100 0);
      }
      else c

  unfoldable pub cost_of : ResourcePrices F → ℤ → PodInfo → RawMetrics → PodCost F
  cost_of prices now pod m = add_waste m (apply_prices prices (convert m (unpriced now pod)))
