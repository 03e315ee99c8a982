-- ===== src/Collector/Tests.antt =====
-- Runs of the manager, and its theorems at concrete updates.
use koprobe.Prelude.{◌≡◌, refl, nat_eq, some, List, [], ◌∷◌}
use koprobe.GoMap.{lookup, insert, change}
use koprobe.Collector.{RawMetrics, Kind, fresh_metrics, new_manager, start_cpu, start_disk, stop}
use koprobe.Collector.Events.{Event, send, send_all}
use koprobe.Collector.Tally.{touched, grow, lookup-send_all-new}

abbrev traffic : List Event
traffic =
    Event.cpu 7 100 40
    ∷ Event.network 9 1 2 3 4
    ∷ Event.cpu 7 18_446_744_073_709_551_615 2
    ∷ Event.disk 7 512 1024 1 2
    ∷ []

abbrev busy : RawMetrics
busy = record (fresh_metrics 7) {
  cpu_cycles = 99;
  cpu_instructions = 42;
  disk_read_bytes = 512;
  disk_write_bytes = 1024;
  disk_read_iops = 1;
  disk_write_iops = 2;
}

run : lookup 7 (send_all traffic new_manager).metrics ≡ some busy
unfolding send_all send lookup insert change new_manager
run = refl

stop_in_order : stop (start_disk (start_cpu new_manager).0).0 ≡ Kind.cpu ∷ Kind.disk ∷ []
unfolding stop start_cpu start_disk new_manager
stop_in_order = refl

lookup-send_all-new_example : lookup 7 (send_all traffic new_manager).metrics ≡ some busy
unfolding touched grow
lookup-send_all-new_example = lookup-send_all-new 7 traffic
