-- ===== src/Collector/Tally.antt =====
-- The manager against the list of the updates it was sent: the counters are sums, whatever the
-- order in which the collectors' goroutines took the lock.
use mathlib.Core.List.{Permᴰ}
use koprobe.Prelude.{
  ℕ, ◌+◌, ◌^◌, ◌≡◌, refl, sym, ap, ◌∙◌, Bool, true, false, ◌||◌, nat_eq, nat_beq_iff, ◌==◌, Option,
  none, some, List, [], ◌∷◌, arith, if◌then◌else◌, Bool-cases, inl, inr, ◌<◌,
}
use koprobe.GoMap.{lookup}
use koprobe.Collector.{
  Manager, RawMetrics, fresh_metrics, new_manager, add64, add_cpu, add_network, add_disk,
}
use koprobe.Collector.Events.{
  Event, cpu, network, disk, send, send_all, target, effect, lookup-send,
}

-- the sum of one component over the updates for a cgroup
unfoldable pub total : (Event → ℕ) → ℕ → List Event → ℕ
total part id [] = 0
total part id (e ∷ es) = (if target e == id then part e else 0) + total part id es

unfoldable pub touched : ℕ → List Event → Bool
touched id [] = false
touched id (e ∷ es) = (target e == id) || touched id es

abbrev pub cycles_of : Event → ℕ
cycles_of (cpu _ c _) = c
cycles_of _ = 0

abbrev pub instructions_of : Event → ℕ
instructions_of (cpu _ _ i) = i
instructions_of _ = 0

abbrev pub ingress_of : Event → ℕ
ingress_of (network _ i _ _ _) = i
ingress_of _ = 0

abbrev pub egress_of : Event → ℕ
egress_of (network _ _ e _ _) = e
egress_of _ = 0

abbrev pub cross_az_of : Event → ℕ
cross_az_of (network _ _ _ a _) = a
cross_az_of _ = 0

abbrev pub internet_of : Event → ℕ
internet_of (network _ _ _ _ o) = o
internet_of _ = 0

abbrev pub read_bytes_of : Event → ℕ
read_bytes_of (disk _ rb _ _ _) = rb
read_bytes_of _ = 0

abbrev pub write_bytes_of : Event → ℕ
write_bytes_of (disk _ _ wb _ _) = wb
write_bytes_of _ = 0

abbrev pub read_iops_of : Event → ℕ
read_iops_of (disk _ _ _ ri _) = ri
read_iops_of _ = 0

abbrev pub write_iops_of : Event → ℕ
write_iops_of (disk _ _ _ _ wi) = wi
write_iops_of _ = 0

-- every counter of `r` raised by its sum, as 64-bit words
unfoldable pub grow : ℕ → List Event → RawMetrics → RawMetrics
unfolding add64 total
grow id es r = record r {
  cpu_cycles = add64 r.cpu_cycles (total cycles_of id es);
  cpu_instructions = add64 r.cpu_instructions (total instructions_of id es);
  network_ingress_bytes = add64 r.network_ingress_bytes (total ingress_of id es);
  network_egress_bytes = add64 r.network_egress_bytes (total egress_of id es);
  network_cross_az_bytes = add64 r.network_cross_az_bytes (total cross_az_of id es);
  network_internet_bytes = add64 r.network_internet_bytes (total internet_of id es);
  disk_read_bytes = add64 r.disk_read_bytes (total read_bytes_of id es);
  disk_write_bytes = add64 r.disk_write_bytes (total write_bytes_of id es);
  disk_read_iops = add64 r.disk_read_iops (total read_iops_of id es);
  disk_write_iops = add64 r.disk_write_iops (total write_iops_of id es);
}

abbrev pub or_fresh : ℕ → Option RawMetrics → RawMetrics
or_fresh id none = fresh_metrics id
or_fresh id (some r) = r

record IsWords (r : RawMetrics) : Type 0 where
  cpu_cycles : r.cpu_cycles < 2 ^ 64
  cpu_instructions : r.cpu_instructions < 2 ^ 64
  network_ingress_bytes : r.network_ingress_bytes < 2 ^ 64
  network_egress_bytes : r.network_egress_bytes < 2 ^ 64
  network_cross_az_bytes : r.network_cross_az_bytes < 2 ^ 64
  network_internet_bytes : r.network_internet_bytes < 2 ^ 64
  disk_read_bytes : r.disk_read_bytes < 2 ^ 64
  disk_write_bytes : r.disk_write_bytes < 2 ^ 64
  disk_read_iops : r.disk_read_iops < 2 ^ 64
  disk_write_iops : r.disk_write_iops < 2 ^ 64

effect-IsWords : (e : Event) (r : RawMetrics) → IsWords r → IsWords (effect e r)
unfolding add_cpu add_network add_disk
effect-IsWords (cpu id c i) r w = omega arith
effect-IsWords (network id i e a o) r w = omega arith
effect-IsWords (disk id rb wb ri wi) r w = omega arith

grow-nil : (id : ℕ) (r : RawMetrics) → IsWords r → grow id [] r ≡ r
unfolding grow
grow-nil id r w = ground arith

add64_assoc : (a b c : ℕ) → add64 (add64 a b) c ≡ add64 a (b + c)
unfolding add64
add64_assoc a b c = omega arith

grow-cons_self :
    (id : ℕ) (e : Event) (es : List Event) (r : RawMetrics)
    → target e ≡ id
    → grow id es (effect e r) ≡ grow id (e ∷ es) r
unfolding grow add_cpu add_network add_disk
grow-cons_self id (cpu _ c i) es r h = ground arith
grow-cons_self id (network _ i e a o) es r h = ground arith
grow-cons_self id (disk _ rb wb ri wi) es r h = ground arith

grow-cons_ne :
    (id : ℕ) (e : Event) (es : List Event) (r : RawMetrics)
    → (target e == id) ≡ false
    → grow id es r ≡ grow id (e ∷ es) r
unfolding grow
grow-cons_ne id e es r h = rw h (ground arith)

-- The entry that the updates for a cgroup lead to, from the one that was there.
replayed : ℕ → List Event → Option RawMetrics → Option RawMetrics
replayed id es o = if touched id es then some (grow id es (or_fresh id o)) else o

grow_untouched :
    (id : ℕ) (es : List Event) (r : RawMetrics)
    → IsWords r
    → touched id es ≡ false
    → grow id es r ≡ r
unfolding touched
grow_untouched id [] r w h = grow-nil id r w
grow_untouched id (e ∷ es) r w h =
    sym (grow-cons_ne id e es r (ground arith)) ∙ grow_untouched id es r w (ground arith)

replayed-some :
    (id : ℕ) (es : List Event) (r : RawMetrics)
    → IsWords r
    → replayed id es (some r) ≡ some (grow id es r)
unfolding replayed
replayed-some id es r w = ground (arith, grow_untouched id es r w)

replayed-cons_self :
    (id : ℕ) (e : Event) (es : List Event) (o : Option RawMetrics)
    → IsWords (or_fresh id o)
    → (target e == id) ≡ true
    → replayed id es (some (effect e (or_fresh id o))) ≡ replayed id (e ∷ es) o
replayed-cons_self id e es o w h =
    replayed-some id es _ (effect-IsWords e _ w)
    ∙ ap some (grow-cons_self id e es (or_fresh id o) ((nat_beq_iff _ _).0 h))
    ∙ (unfold replayed touched in rw h)

replayed-cons_ne :
    (id : ℕ) (e : Event) (es : List Event) (o : Option RawMetrics)
    → (target e == id) ≡ false
    → replayed id es o ≡ replayed id (e ∷ es) o
unfolding replayed touched
replayed-cons_ne id e es o h = rw (h, grow-cons_ne id e es (or_fresh id o) h)

lookup-send_all :
    (id : ℕ) (es : List Event) (m : Manager) (o : Option RawMetrics)
    → lookup id m.metrics ≡ o
    → IsWords (or_fresh id o)
    → lookup id (send_all es m).metrics ≡ replayed id es o
unfolding send_all
lookup-send_all id [] m o h w = h ∙ (unfold replayed touched in refl)
lookup-send_all id (e ∷ es) m o h w = elim (Bool-cases (target e == id)) [
  | inl hit ↦
      lookup-send_all id es (send e m) (some (effect e (or_fresh id o)))
        (ground (arith, lookup-send id e m)) (effect-IsWords e _ w)
      ∙ replayed-cons_self id e es o w hit
  | inr miss ↦
      lookup-send_all id es (send e m) o (ground (arith, lookup-send id e m)) w
      ∙ replayed-cons_ne id e es o miss
]

pub lookup-send_all-empty :
    (id : ℕ) (es : List Event) (m : Manager)
    → m.metrics ≡ []
    → lookup id (send_all es m).metrics
      ≡ (if touched id es then some (grow id es (fresh_metrics id)) else none)
lookup-send_all-empty id es m h =
    lookup-send_all id es m none (ap (lookup id) h ∙ (unfold lookup in refl)) (omega arith)
    ∙ (unfold replayed in refl)

-- What the manager holds for a cgroup after the updates `es`, sent in that order to a new manager:
-- nothing if none of them is for the cgroup, and otherwise an entry with the cgroup's identifier
-- whose ten counters are the sums of the updates for it modulo 2 ^ 64, and whose other fields are 0.
pub lookup-send_all-new :
    (id : ℕ) (es : List Event)
    → lookup id (send_all es new_manager).metrics
      ≡ (if touched id es then some (grow id es (fresh_metrics id)) else none)
lookup-send_all-new id es = lookup-send_all-empty id es new_manager (unfold new_manager in refl)

total-perm :
    (part : Event → ℕ) (id : ℕ) {es fs : List Event}
    → Permᴰ es fs
    → total part id es ≡ total part id fs
unfolding total
total-perm part id Permᴰ.nil = refl
total-perm part id (Permᴰ.cons {l₁ = es} p r) = cc (total-perm part id r)
total-perm part id (Permᴰ.swap p q) = ground arith
total-perm part id (Permᴰ.trans p q) = total-perm part id p ∙ total-perm part id q

touched-perm : (id : ℕ) {es fs : List Event} → Permᴰ es fs → touched id es ≡ touched id fs
unfolding touched
touched-perm id Permᴰ.nil = refl
touched-perm id (Permᴰ.cons p r) = cc (touched-perm id r)
touched-perm id (Permᴰ.swap p q) = ground arith
touched-perm id (Permᴰ.trans p q) = touched-perm id p ∙ touched-perm id q

grow-perm :
    (id : ℕ) {es fs : List Event} (r : RawMetrics) → Permᴰ es fs → grow id es r ≡ grow id fs r
unfolding grow
grow-perm id r p = cc (
  total-perm cycles_of id p,
  total-perm instructions_of id p,
  total-perm ingress_of id p,
  total-perm egress_of id p,
  total-perm cross_az_of id p,
  total-perm internet_of id p,
  total-perm read_bytes_of id p,
  total-perm write_bytes_of id p,
  total-perm read_iops_of id p,
  total-perm write_iops_of id p,
)

-- The entry of a cgroup does not depend on the order in which the collectors' updates arrive.
pub send_all-perm :
    (id : ℕ) (es fs : List Event)
    → Permᴰ es fs
    → lookup id (send_all es new_manager).metrics ≡ lookup id (send_all fs new_manager).metrics
send_all-perm id es fs p =
    lookup-send_all-new id es
    ∙ (rw (touched-perm id p, grow-perm id (fresh_metrics id) p))
    ∙ sym (lookup-send_all-new id fs)
