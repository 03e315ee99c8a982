-- ===== src/Slack/Digest/Weekly.antt =====
-- How often the hourly ticker of `StartWeeklyDigest` sends the digest.
mod Tests
use koprobe.Prelude.{
  ℕ, zero, suc, ◌+◌, ◌-◌, ◌*◌, ◌/◌, ◌%◌, ◌≡◌, refl, ap, ◌∙◌, sym, nat_eq, ◌==◌, ◌&&◌, Bool, true,
  false, Bool-cases, inl, inr, Text, select, map, List, [], ◌∷◌, ◌++◌, arith, if◌then◌else◌,
}
use koprobe.Float.{Double}
use koprobe.Slack.Digest.{is_due}
use koprobe.Slack.Posts.{Printer, Post}
use koprobe.Slack.Loops.{
  Hour, start_weekly_digest, is_due_at, digest_post, start_weekly_digest-returns,
}
use koprobe.Tickers.{Signal, Progress, done, tick, returned}
use koprobe.Tickers.Rounds.{ticks_before, stands, is_done}

-- so many numbers from one on
unfoldable pub count_from : ℕ → ℕ → List ℕ
count_from start zero = []
count_from start (suc n) = start ∷ count_from (start + 1) n

-- nine on Monday of a week, in hours from the start of the Sunday of the first week
unfoldable pub monday_at_nine : ℕ → ℕ
monday_at_nine week = 24 + 9 + 168 * week

-- how many of these come before an hour
unfoldable pub mondays_before : ℕ → ℕ
mondays_before hour = (hour + 134) / 168

abbrev due_at : ℕ → Bool
due_at hour = is_due (hour / 24 % 7) (hour % 24)

due_at-true :
    (hour : ℕ)
    → due_at hour ≡ true
    → (hour ≡ monday_at_nine (mondays_before hour))
      × (mondays_before (hour + 1) ≡ mondays_before hour + 1)
unfolding is_due monday_at_nine mondays_before
due_at-true hour e = (ground (arith, e), ground (arith, e))

due_at-false : (hour : ℕ) → due_at hour ≡ false → mondays_before (hour + 1) ≡ mondays_before hour
unfolding is_due mondays_before
due_at-false hour e = ground (arith, e)

due-eq-mondays :
    (start n : ℕ)
    → select due_at (count_from start n)
      ≡ map monday_at_nine
          (count_from (mondays_before start) (mondays_before (start + n) - mondays_before start))
unfolding count_from
due-eq-mondays start zero =
    let none_left : mondays_before (start + 0) - mondays_before start ≡ 0 =
      unfold mondays_before in omega arith in
    rw none_left refl
due-eq-mondays start (suc n) =
    let rest = due-eq-mondays (start + 1) n in
    elim (Bool-cases (due_at start)) [
      | inl e ↦
          let (now, next) = due_at-true start e in
          let one_more : mondays_before (start + suc n) - mondays_before start
              ≡ suc (mondays_before (start + 1 + n) - mondays_before (start + 1)) =
            unfold mondays_before in omega (arith, next) in
          rw (e, one_more, rest, next)
            (ap
              (λ h.
                h
                ∷ map monday_at_nine (
                    count_from (mondays_before start + 1)
                      (mondays_before (start + 1 + n) - (mondays_before start + 1))))
              now)
      | inr e ↦
          let same = due_at-false start e in
          let as_many : mondays_before (start + suc n) - mondays_before start
              ≡ mondays_before (start + 1 + n) - mondays_before (start + 1) =
            unfold mondays_before in omega (arith, same) in
          rw (e, as_many, rest, same) refl
    ]

map-map :
    {A B C : Type 0} (g : B → C) (f : A → B) (xs : List A)
    → map g (map f xs) ≡ map (λ x. g (f x)) xs
map-map g f [] = refl
map-map g f (x ∷ xs) = ap (λ l. g (f x) ∷ l) (map-map g f xs)

module _ {F : Type 0} ⦃d : Double F⦄ where
  -- ticks whose weekdays and hours are those of a calendar without jumps
  abbrev pub IsHourly : (ℕ → Hour F) → Type 0
  IsHourly at = (i : ℕ) → ((at i).weekday ≡ i / 24 % 7) × ((at i).hour ≡ i % 24)

  -- the hourly ticks from an hour on, and what comes after them
  abbrev pub ticks_of :
      (ℕ → Hour F) → List ℕ → List (Signal (Unit {0}) (Hour F)) → List (Signal (Unit {0}) (Hour F))
  ticks_of at [] rest = rest
  ticks_of at (i ∷ is) rest = tick (at i) ∷ ticks_of at is rest

  ticks_before-ticks_of :
      (at : ℕ → Hour F) (is : List ℕ) (rest : List (Signal (Unit {0}) (Hour F)))
      → (ticks_before (ticks_of at is (done ∷ rest)) ≡ map at is)
        × (is_done (ticks_of at is (done ∷ rest)) ≡ true)
  unfolding ticks_before is_done
  ticks_before-ticks_of at [] rest = (refl, refl)
  ticks_before-ticks_of at (i ∷ is) rest =
      let (before, ended) = ticks_before-ticks_of at is rest in (ap (λ l. at i ∷ l) before, ended)

  select-map_at :
      (at : ℕ → Hour F)
      → IsHourly at
      → (is : List ℕ) → select is_due_at (map at is) ≡ map at (select due_at is)
  select-map_at at h [] = refl
  select-map_at at h (i ∷ is) =
      let rest = select-map_at at h is in
      let same : is_due_at (at i) ≡ due_at i = rw ((h i).0, (h i).1) refl in
      elim (Bool-cases (due_at i)) [
        | inl e ↦ rw (same, e, rest) refl
        | inr e ↦ rw (same, e, rest) refl
      ]

  -- In so many weeks of hourly ticks, at successive hours of a calendar without jumps and whenever the
  -- first week begins, `StartWeeklyDigest` posts exactly as many digests, one for each week: that of
  -- the aggregator as it is at nine on Monday, in the order of the weeks; and it returns when its
  -- context ends after these ticks, whatever else would have come.
  pub start_weekly_digest-weekly :
      (p : Printer F) (webhook_url : Text) (at : ℕ → Hour F)
      → IsHourly at
      → (start weeks : ℕ) (rest : List (Signal (Unit {0}) (Hour F))) (posts : List Post)
      → start_weekly_digest p webhook_url
          (ticks_of at (count_from start (168 * weeks)) (done ∷ rest))
          posts
        ≡ returned (
            posts
            ++ map
                (λ week. digest_post p webhook_url (at (monday_at_nine week)))
                (count_from (mondays_before start) weeks))
  unfolding stands
  start_weekly_digest-weekly p webhook_url at h start weeks rest posts =
      let is = count_from start (168 * weeks) in
      let weekly = count_from (mondays_before start) weeks in
      let post = digest_post p webhook_url in
      let (before, ended) = ticks_before-ticks_of at is rest in
      let as_many : mondays_before (start + 168 * weeks) - mondays_before start ≡ weeks =
        unfold mondays_before in omega arith in
      let due =
        due-eq-mondays start (168 * weeks)
        ∙ ap (λ k. map monday_at_nine (count_from (mondays_before start) k)) as_many in
      let sent : map post (select is_due_at (ticks_before (ticks_of at is (done ∷ rest))))
          ≡ map (λ week. post (at (monday_at_nine week))) weekly =
        rw (before, select-map_at at h is, due)
          (map-map post at (map monday_at_nine weekly)
            ∙ map-map (λ i. post (at i)) monday_at_nine weekly) in
      start_weekly_digest-returns p webhook_url _ posts
      ∙ (rw (stands, ended) (ap (λ l. returned (posts ++ l)) sent))
