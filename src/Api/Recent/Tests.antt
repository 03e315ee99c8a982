-- ===== src/Api/Recent/Tests.antt =====
-- The history of the last three hours after one tick.
use koprobe.Prelude.{
  ◌≡◌, length, Text, codes, ◌*◌, ◌^◌, pos, ◌-ℤ◌, ◌+ℤ◌, int64, negsuc, ◌-◌, refl, select, map, [],
  ◌∷◌,
}
use koprobe.Float.Pico.{Pico, pico_double}
use koprobe.Window.{suffix}
use koprobe.Aggregator.Tests.{after, taken, Run-after}
use koprobe.Aggregator.{Snapshot, history_since}
use koprobe.Api.{history}
use koprobe.Api.Recent.{is_after, asked_hours, history-eq-map-suffix}

abbrev scan : Text → Pico
scan hours = pos (3 * 10 ^ 12)

history-eq-map-suffix_example :
    history scan (codes "3") (pos 8) after
    ≡ map
        (λ s. record { time = s.timestamp; cost = s.total })
        (suffix
          (length (
            select
              (is_after (pos 8 +ℤ int64 (pos 0 -ℤ asked_hours scan (codes "3"))))
              (suffix 5760 (taken ∷ []))))
          (taken ∷ []))
history-eq-map-suffix_example = history-eq-map-suffix scan (codes "3") (pos 8) Run-after (tt, tt)

-- the least duration, which wraps to itself: the cut-off is then 292 years ago
least : int64 (pos 0 -ℤ negsuc (2 ^ 63 - 1)) ≡ negsuc (2 ^ 63 - 1)
unfolding int64 ◌-ℤ◌
least = refl

abbrev old : Snapshot Pico
old = record { timestamp = pos 5; pod_costs = []; team_costs = []; total = pos 0 }

whole :
    length (history_since (pos 8) (negsuc (2 ^ 63 - 1)) (record after { history = old ∷ [] })) ≡ 1
unfolding history_since int64 ◌-ℤ◌ ◌+ℤ◌
whole = refl
