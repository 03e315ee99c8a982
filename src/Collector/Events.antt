-- ===== src/Collector/Events.antt =====
-- The updates that the manager is sent.
use koprobe.Prelude.{ℕ, ◌≡◌, nat_eq, nat_beq_iff, ◌==◌, some, List, [], ◌∷◌, arith, if◌then◌else◌}
use koprobe.GoMap.{lookup, lookup_or, lookup-change}
use koprobe.Collector.{
  Manager, RawMetrics, fresh_metrics, update, add_cpu, add_network, add_disk, update_cpu,
  update_network, update_disk,
}

-- One call of an update method.
pub data Event : Type 0 where
  cpu : (id cycles instructions : ℕ) → Event
  network : (id ingress egress cross_az internet : ℕ) → Event
  disk : (id read_bytes write_bytes read_iops write_iops : ℕ) → Event

unfoldable pub send : Event → Manager → Manager
unfolding update_cpu update_network update_disk
send (cpu id c i) m = update_cpu id c i m
send (network id i e a o) m = update_network id i e a o m
send (disk id rb wb ri wi) m = update_disk id rb wb ri wi m

unfoldable pub send_all : List Event → Manager → Manager
send_all [] m = m
send_all (e ∷ es) m = send_all es (send e m)

abbrev pub target : Event → ℕ
target (cpu id _ _) = id
target (network id _ _ _ _) = id
target (disk id _ _ _ _) = id

abbrev pub effect : Event → RawMetrics → RawMetrics
effect (cpu _ c i) = add_cpu c i
effect (network _ i e a o) = add_network i e a o
effect (disk _ rb wb ri wi) = add_disk rb wb ri wi

lookup-update :
    (id j : ℕ) (add : RawMetrics → RawMetrics) (m : Manager)
    → lookup j (update id add m).metrics ≡ (
        if id == j
        then some (add (lookup_or (fresh_metrics j) j m.metrics))
        else lookup j m.metrics)
unfolding update
lookup-update id j add m =
    ground (arith, lookup-change id j (fresh_metrics id) add m.metrics, nat_beq_iff id j)

-- An update changes the entry of its own cgroup, made first if it is missing, and no other.
pub lookup-send :
    (j : ℕ) (e : Event) (m : Manager)
    → lookup j (send e m).metrics ≡ (
        if target e == j
        then some (effect e (lookup_or (fresh_metrics j) j m.metrics))
        else lookup j m.metrics)
unfolding send
lookup-send j (cpu id c i) m = lookup-update id j (effect (cpu id c i)) m
lookup-send j (network id i e a o) m = lookup-update id j (effect (network id i e a o)) m
lookup-send j (disk id rb wb ri wi) m = lookup-update id j (effect (disk id rb wb ri wi)) m
