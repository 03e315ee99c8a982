-- ===== src/Slack/Alerts.antt =====
-- What the loop of `StartAnomalyAlerts` posts, against the checks one by one.
mod Tests
use mathlib.Core.List.{append-nil, append_assoc, foldl-append}
use koprobe.Prelude.{
  ◌≡◌, refl, sym, ap, ◌∙◌, text_eq, Text, All, All-snoc_inv, Option-cases, Bool-cases,
  if◌then◌else◌, inl, inr, Option, none, some, foldl, map, List, [], ◌∷◌, ◌++◌,
}
use koprobe.Float.{Double}
use koprobe.GoMap.{Map, lookup, IsMap}
use koprobe.Aggregator.{TeamCost}
use koprobe.Baselines.{Tracker, check_all, renewed, deserved, check_all_lem}
use koprobe.Slack.{spikes, spike, is_spike}
use koprobe.Slack.Posts.{Printer, Post, posted, send_alert, spike_text}
use koprobe.Slack.Loops.{Check, costs_in, nobody, check_on, start_anomaly_alerts}
use koprobe.Tickers.{Signal}
use koprobe.Tickers.Rounds.{ticks_before, stands, loop-stands}

module _ {F : Type 0} ⦃d : Double F⦄ (p : Printer F) (webhook_url : Text) where
  -- what one check makes of a team's baseline
  abbrev pub rechecked : Text → Option F → Check F → Option F
  rechecked team baseline c = renewed (posted p webhook_url) baseline (lookup team (costs_in c))

  -- the posts for teams, by their baselines: one for each team whose cost is a spike
  unfoldable pub due : (Text → Option F) → List (Text × TeamCost F) → List Post
  due base [] = []
  due base ((team, tc) ∷ teams) = elim (base team) [
    | none ↦ due base teams
    | some b ↦
        if is_spike b tc.total_cost
        then send_alert webhook_url (spike_text p (spike team b tc.total_cost)) ∷ due base teams
        else due base teams
  ]

  -- the posts for checks, one after the other
  unfoldable pub due_over : (Text → Option F) → List (Check F) → List Post
  unfolding due
  due_over base [] = []
  due_over base (c ∷ cs) =
      due base (c.order.visit (costs_in c)) ++ due_over (λ team. rechecked team (base team) c) cs

  deserved-eq-due :
      (old : Map Text F) (base : Text → Option F)
      → ((team : Text) → lookup team old ≡ base team)
      → (teams : List (Text × TeamCost F))
      → deserved (posted p webhook_url) old teams ≡ due base teams
  unfolding deserved due posted spikes
  deserved-eq-due old base h [] = refl
  deserved-eq-due old base h ((team, tc) ∷ teams) = elim (Option-cases (base team)) [
    | inl e ↦ rw (deserved, due, h team, e) (deserved-eq-due old base h teams)
    | inr (b, e) ↦ elim (Bool-cases (is_spike b tc.total_cost)) [
      | inl k ↦
          rw (deserved, due, h team, e, k)
            (ap (λ l. send_alert webhook_url (spike_text p (spike team b tc.total_cost)) ∷ l)
              (deserved-eq-due old base h teams))
      | inr k ↦ rw (deserved, due, h team, e, k) (deserved-eq-due old base h teams)
    ]
  ]

  due_over-snoc :
      (base : Text → Option F) (cs : List (Check F)) (c : Check F)
      → due_over base (cs ++ (c ∷ []))
        ≡ due_over base cs
          ++ due (λ team. foldl (rechecked team) (base team) cs) (c.order.visit (costs_in c))
  unfolding due_over
  due_over-snoc base [] c = append-nil _
  due_over-snoc base (x ∷ cs) c =
      ap (λ l. due base (x.order.visit (costs_in x)) ++ l)
        (due_over-snoc (λ team. rechecked team (base team) x) cs c)
      ∙ sym (append_assoc (due base (x.order.visit (costs_in x))) _ _)

  abbrev IsChecked : Tracker F Post → List (Check F) → Tracker F Post → Type 0
  IsChecked s seen b =
      All (λ c. IsMap (costs_in c)) seen
      → ((team : Text)
          → lookup team b.baselines ≡ foldl (rechecked team) (lookup team s.baselines) seen)
        × (b.raised ≡ s.raised ++ due_over (λ team. lookup team s.baselines) seen)

  check_on-IsChecked :
      (s : Tracker F Post) (seen : List (Check F)) (c : Check F) (b : Tracker F Post)
      → IsChecked s seen b
      → IsChecked s
          (seen ++ (c ∷ []))
          (check_all (posted p webhook_url) b (c.order.visit (costs_in c)))
  check_on-IsChecked s seen c b h maps =
      let (before, map) = All-snoc_inv _ seen c maps in
      let (base, posts) = h before in
      let teams = c.order.visit (costs_in c) in
      let first : Text → Option F = λ team. lookup team s.baselines in
      let (base', raised) = check_all_lem (posted p webhook_url) c.order (costs_in c) b map in
      (
        λ team.
            base' team
            ∙ ap (λ o. rechecked team o c) (base team)
            ∙ sym (foldl-append (rechecked team) (first team) seen (c ∷ [])),
        raised
            ∙ ap (λ l. l ++ deserved (posted p webhook_url) b.baselines teams) posts
            ∙ append_assoc s.raised (due_over first seen) _
            ∙ ap (λ l. s.raised ++ (due_over first seen ++ l))
                (deserved-eq-due b.baselines _ base teams)
            ∙ ap (λ l. s.raised ++ l) (sym (due_over-snoc first seen c)),
      )

  -- `StartAnomalyAlerts` returns once its context has ended, and waits for ticks before that. Over
  -- snapshots in which no team stands twice, and in any orders of the loops: each team's baseline is
  -- what the ticks before the end make of it one after the other, by that team's costs alone; and for
  -- each of these ticks, and each team in the order of its loop, an alert goes to the web hook if the
  -- team's cost is a spike over the baseline that the ticks before made, and nothing else does.
  pub start_anomaly_alerts-returns :
      (signals : List (Signal (Unit {0}) (Check F))) (s : Tracker F Post)
      → All (λ c. IsMap (costs_in c)) (ticks_before signals)
      → (b : Tracker F Post) × (start_anomaly_alerts p webhook_url signals s ≡ stands signals b)
        × ((team : Text)
            → lookup team b.baselines
              ≡ foldl (rechecked team) (lookup team s.baselines) (ticks_before signals))
        × (b.raised ≡ s.raised ++ due_over (λ team. lookup team s.baselines) (ticks_before signals))
  unfolding start_anomaly_alerts
  start_anomaly_alerts-returns signals s h =
      let (b, same, end) =
        loop-stands nobody (check_on p webhook_url) (IsChecked s) (λ seen o b k. k)
          (λ seen c b k. (_, refl, check_on-IsChecked s seen c b k)) signals s
          (λ _. (λ team. refl, unfold due_over in sym (append-nil s.raised))) in
      let (base, posts) = end h in (b, same, base, posts)
