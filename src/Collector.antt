-- ===== src/Collector.antt =====
-- internal/collector/manager.go: the manager of the eBPF collectors and its map of raw metrics.
-- The map holds pointers that nothing else keeps, since `Snapshot` copies each value, so an entry
-- is a value here. The locks make each method one atomic step. A collector's state is whether its
-- pointer is set: its `Start` returns nil and its `Stop` does nothing.
pub mod Events
pub mod Tally
pub mod Copies
pub mod Tests
use koprobe.Prelude.{
  ℕ, ◌+◌, ◌%◌, ◌^◌, ◌≡◌, Bool, true, false, nat_eq, ℤ, pos, Option, none, some, List, [], ◌∷◌, ◌++◌,
  Text, if◌then◌else◌,
}
use koprobe.GoMap.{Map, change}
use koprobe.GoMap.Ranging.{Order, insert_all}

-- `a += b` on a `uint64`
unfoldable pub add64 : ℕ → ℕ → ℕ
add64 a b = (a + b) % 2 ^ 64

pub record RawMetrics : Type 0 where
  pub cgroup_id : ℕ
  pub cpu_cycles : ℕ
  pub cpu_instructions : ℕ
  pub cpu_requested_millis : ℤ
  pub memory_bytes_avg : ℕ
  pub memory_bytes_max : ℕ
  pub memory_requested_mb : ℤ
  pub network_ingress_bytes : ℕ
  pub network_egress_bytes : ℕ
  pub network_cross_az_bytes : ℕ
  pub network_internet_bytes : ℕ
  pub network_packets : ℕ
  pub disk_read_bytes : ℕ
  pub disk_write_bytes : ℕ
  pub disk_read_iops : ℕ
  pub disk_write_iops : ℕ
  pub disk_read_lat_ns : ℕ
  pub disk_write_lat_ns : ℕ

-- `&RawMetrics{CgroupID: id}`
abbrev pub fresh_metrics : ℕ → RawMetrics
fresh_metrics id = record {
  cgroup_id = id;
  cpu_cycles = 0;
  cpu_instructions = 0;
  cpu_requested_millis = pos 0;
  memory_bytes_avg = 0;
  memory_bytes_max = 0;
  memory_requested_mb = pos 0;
  network_ingress_bytes = 0;
  network_egress_bytes = 0;
  network_cross_az_bytes = 0;
  network_internet_bytes = 0;
  network_packets = 0;
  disk_read_bytes = 0;
  disk_write_bytes = 0;
  disk_read_iops = 0;
  disk_write_iops = 0;
  disk_read_lat_ns = 0;
  disk_write_lat_ns = 0;
}

pub record Manager : Type 0 where
  pub metrics : Map ℕ RawMetrics
  pub cpu_collector : Bool
  pub network_collector : Bool
  pub disk_collector : Bool
  pub memory_collector : Bool

unfoldable pub new_manager : Manager
new_manager = record {
  metrics = [];
  cpu_collector = false;
  network_collector = false;
  disk_collector = false;
  memory_collector = false;
}

-- An `error` result; `none` is nil.
abbrev pub Error : Type 0
Error = Option Text

unfoldable pub start_cpu : Manager → Manager × Error
start_cpu m = (record m { cpu_collector = true }, none)

unfoldable pub start_network : Manager → Manager × Error
start_network m = (record m { network_collector = true }, none)

unfoldable pub start_disk : Manager → Manager × Error
start_disk m = (record m { disk_collector = true }, none)

unfoldable pub start_memory : Manager → Manager × Error
start_memory m = (record m { memory_collector = true }, none)

-- `m.metrics[id]`, made as `&RawMetrics{CgroupID: id}` if it is missing, and changed in place
unfoldable pub update : ℕ → (RawMetrics → RawMetrics) → Manager → Manager
update id add m = record m { metrics = change id (fresh_metrics id) add m.metrics }

unfoldable pub add_cpu : ℕ → ℕ → RawMetrics → RawMetrics
unfolding add64
add_cpu cycles instructions r = record r {
  cpu_cycles = add64 r.cpu_cycles cycles;
  cpu_instructions = add64 r.cpu_instructions instructions;
}

unfoldable pub add_network : ℕ → ℕ → ℕ → ℕ → RawMetrics → RawMetrics
unfolding add64
add_network ingress egress cross_az internet r = record r {
  network_ingress_bytes = add64 r.network_ingress_bytes ingress;
  network_egress_bytes = add64 r.network_egress_bytes egress;
  network_cross_az_bytes = add64 r.network_cross_az_bytes cross_az;
  network_internet_bytes = add64 r.network_internet_bytes internet;
}

unfoldable pub add_disk : ℕ → ℕ → ℕ → ℕ → RawMetrics → RawMetrics
unfolding add64
add_disk read_bytes write_bytes read_iops write_iops r = record r {
  disk_read_bytes = add64 r.disk_read_bytes read_bytes;
  disk_write_bytes = add64 r.disk_write_bytes write_bytes;
  disk_read_iops = add64 r.disk_read_iops read_iops;
  disk_write_iops = add64 r.disk_write_iops write_iops;
}

unfoldable pub update_cpu : ℕ → ℕ → ℕ → Manager → Manager
unfolding update add_cpu
update_cpu id cycles instructions m = update id (add_cpu cycles instructions) m

unfoldable pub update_network : ℕ → ℕ → ℕ → ℕ → ℕ → Manager → Manager
unfolding update add_network
update_network id ingress egress cross_az internet m =
    update id (add_network ingress egress cross_az internet) m

unfoldable pub update_disk : ℕ → ℕ → ℕ → ℕ → ℕ → Manager → Manager
unfolding update add_disk
update_disk id read_bytes write_bytes read_iops write_iops m =
    update id (add_disk read_bytes write_bytes read_iops write_iops) m

-- A copy of every entry, made in the order of the loop.
unfoldable pub snapshot : Order (ℕ × RawMetrics) → Manager → Map ℕ RawMetrics
snapshot order m = insert_all [] (order.visit m.metrics)

pub data Kind : Type 0 where
  cpu network disk memory : Kind

abbrev called : Bool → Kind → List Kind
called set k = if set then k ∷ [] else []

-- `Stop` leaves the manager as it is; the list is the collectors whose own `Stop` it calls, in turn.
unfoldable pub stop : Manager → List Kind
stop m =
    called m.cpu_collector cpu
    ++ (called m.network_collector network
        ++ (called m.disk_collector disk ++ called m.memory_collector memory))
