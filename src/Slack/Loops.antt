-- ===== src/Slack/Loops.antt =====
-- internal/exporter/slack.go: `StartAnomalyAlerts` and `StartWeeklyDigest`. A tick brings what its
-- body reads: the aggregator as it is then, the clock, the orders of the loops, and for the digest the
-- weekday, the hour, the date, the aggregator at the waste report and what `sort.Slice` does. No other
-- goroutine has the exporter.
use mathlib.Core.List.{append-nil, append_assoc, map-append}
use koprobe.Prelude.{
  ℕ, ◌≡◌, refl, sym, ap, ◌∙◌, Bool, text_eq, Text, ℤ, Option, some, select, select-append, map,
  List, [], ◌∷◌, ◌++◌, if◌then◌else◌, Bool-cases, inl, inr,
}
use koprobe.Float.{Double}
use koprobe.GoMap.{Map}
use koprobe.GoMap.Ranging.{Order}
use koprobe.Aggregator.{PodCost, TeamCost, Aggregator, latest_snapshot}
use koprobe.Sorting.{Sorter}
use koprobe.Baselines.{Tracker, check_all}
use koprobe.Slack.Digest.{Message, Entry, is_due, weekly_digest}
use koprobe.Slack.Posts.{Printer, Post, send_alert, digest_text, posted}
use koprobe.Tickers.{Signal, Progress, loop}
use koprobe.Tickers.Rounds.{ticks_before, stands, loop-stands}

pub record Check (F : Type 0) : Type 0 where
  pub order : Order (Text × TeamCost F)
  pub now : ℤ
  pub aggregator : Aggregator F

pub record Hour (F : Type 0) : Type 0 where
  pub weekday : ℕ
  pub hour : ℕ
  pub now : ℤ
  pub dated : ℤ
  pub aggregator : Aggregator F
  pub later : Aggregator F
  pub teams : Order (Text × TeamCost F)
  pub pods : Order (Text × PodCost F)
  pub sorter : Sorter (Entry F)

abbrev pub is_due_at : {F : Type 0} → Hour F → Bool
is_due_at t = is_due t.weekday t.hour

module _ {A : Type 0} where
  abbrev pub nobody : Unit {0} → A → A
  nobody _ a = a

module _ {F : Type 0} ⦃d : Double F⦄ where
  -- the costs of the teams in the latest snapshot
  abbrev pub costs_in : Check F → Map Text (TeamCost F)
  costs_in c = (latest_snapshot c.now c.aggregator).team_costs

  abbrev pub digest_at : Hour F → Message F
  digest_at t = weekly_digest t.teams t.sorter t.pods t.now t.aggregator t.later

module _ {F : Type 0} ⦃d : Double F⦄ (p : Printer F) (webhook_url : Text) where
  abbrev pub check_on : Check F → Tracker F Post → Option (Tracker F Post)
  check_on c s = some (check_all (posted p webhook_url) s (c.order.visit (costs_in c)))

  unfoldable pub start_anomaly_alerts :
      List (Signal (Unit {0}) (Check F)) → Tracker F Post → Progress (Tracker F Post)
  start_anomaly_alerts signals s = loop nobody check_on signals s

  abbrev pub digest_post : Hour F → Post
  digest_post t = send_alert webhook_url (digest_text p t.dated (digest_at t))

  abbrev digest_on : Hour F → List Post → Option (List Post)
  digest_on t posts = some (if is_due_at t then posts ++ (digest_post t ∷ []) else posts)

  unfoldable pub start_weekly_digest :
      List (Signal (Unit {0}) (Hour F)) → List Post → Progress (List Post)
  start_weekly_digest signals posts = loop nobody digest_on signals posts

  digest_on-snoc :
      (t : Hour F) (seen : List (Hour F)) (posts : List Post)
      → (if is_due_at t
          then (posts ++ map digest_post (select is_due_at seen)) ++ (digest_post t ∷ [])
          else posts ++ map digest_post (select is_due_at seen))
        ≡ posts ++ map digest_post (select is_due_at (seen ++ (t ∷ [])))
  digest_on-snoc t seen posts =
      let split = select-append is_due_at seen (t ∷ []) in
      elim (Bool-cases (is_due_at t)) [
        | inl e ↦
            (rw e
              (append_assoc posts (map digest_post (select is_due_at seen)) (digest_post t ∷ [])))
            ∙ ap (λ l. posts ++ l) (sym (map-append digest_post (select is_due_at seen) (t ∷ [])))
            ∙ ap (λ l. posts ++ map digest_post l) (sym (rw e at split))
        | inr e ↦
            let kept = rw (e, append-nil (select is_due_at seen)) at split in
            (rw e refl) ∙ ap (λ l. posts ++ map digest_post l) (sym kept)
      ]

  -- `StartWeeklyDigest` returns once its context has ended, and waits for ticks before that. For each tick
  -- before the end that falls into the hour of nine on a Monday it posts to the web hook the digest of
  -- the aggregator as it is then, in their order, whatever became of earlier posts, and nothing else.
  pub start_weekly_digest-returns :
      (signals : List (Signal (Unit {0}) (Hour F))) (posts : List Post)
      → start_weekly_digest signals posts
        ≡ stands signals (posts ++ map digest_post (select is_due_at (ticks_before signals)))
  unfolding start_weekly_digest
  start_weekly_digest-returns signals posts =
      let (b, same, end) =
        loop-stands nobody digest_on
          (λ seen b. b ≡ posts ++ map digest_post (select is_due_at seen)) (λ seen o b h. h)
          (λ seen t b h. (_, refl, (rw h refl) ∙ digest_on-snoc t seen posts)) signals posts
          (sym (append-nil posts)) in
      same ∙ ap (stands signals) end
