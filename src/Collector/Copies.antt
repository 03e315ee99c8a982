-- ===== src/Collector/Copies.antt =====
-- `Snapshot`: the copies against the manager's own map, whatever the order of the loop.
use koprobe.Prelude.{ℕ, ◌≡◌, ◌∙◌, nat_eq, List, [], ◌∷◌, arith}
use koprobe.GoMap.{lookup, IsMap, change-IsMap}
use koprobe.GoMap.Ranging.{Order, lookup-insert_all, insert_all-IsMap, lookup-perm}
use koprobe.Collector.{
  Manager, RawMetrics, fresh_metrics, update, add_cpu, add_network, add_disk, snapshot,
}
use koprobe.Collector.Events.{Event, send, send_all}

-- What the manager's map keeps under every update: no cgroup has two entries.
abbrev pub IsManager : Manager → Type 0
IsManager m = IsMap m.metrics

update-IsManager :
    (id : ℕ) (add : RawMetrics → RawMetrics) (m : Manager)
    → IsManager m
    → IsManager (update id add m)
unfolding update
update-IsManager id add m h = change-IsMap id (fresh_metrics id) add m.metrics h

pub send-IsManager : (e : Event) (m : Manager) → IsManager m → IsManager (send e m)
unfolding send
send-IsManager (Event.cpu id c i) m h = update-IsManager id (add_cpu c i) m h
send-IsManager (Event.network id i e a o) m h = update-IsManager id (add_network i e a o) m h
send-IsManager (Event.disk id rb wb ri wi) m h = update-IsManager id (add_disk rb wb ri wi) m h

pub send_all-IsManager : (es : List Event) (m : Manager) → IsManager m → IsManager (send_all es m)
unfolding send_all
send_all-IsManager [] m h = h
send_all-IsManager (e ∷ es) m h = send_all-IsManager es (send e m) (send-IsManager e m h)

-- A snapshot of a manager holds for each cgroup just what the manager holds, in whatever order the
-- copying loop visits the entries.
pub lookup-snapshot :
    (order : Order (ℕ × RawMetrics)) (m : Manager) (id : ℕ)
    → IsManager m
    → lookup id (snapshot order m) ≡ lookup id m.metrics
unfolding snapshot
lookup-snapshot order m id h =
    let (d, same) = lookup-perm (order.visit-perm m.metrics) h in
    lookup-insert_all id [] (order.visit m.metrics) d
    ∙ (rw (← same id) (unfold lookup in ground arith))

pub snapshot-IsMap : (order : Order (ℕ × RawMetrics)) (m : Manager) → IsMap (snapshot order m)
unfolding snapshot
snapshot-IsMap order m = insert_all-IsMap [] (order.visit m.metrics) tt
