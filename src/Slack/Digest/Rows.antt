-- ===== src/Slack/Digest/Rows.antt =====
-- What the weekly digest lists, in every run of the daemon.
use mathlib.Core.List.{Permᴰ}
use mathlib.Core.Path.{subst}
use koprobe.Prelude.{
  ℕ, suc, ◌+◌, ◌-◌, ◌≡◌, sym, refl, ap, ◌∙◌, leb, Text, ℤ, All, All-imp, All-map, take-nil, length,
  take, map, none, List, [], ◌∷◌, arith, Bool-cases, inl, inr,
}
use koprobe.Float.{Double, ◌≺◌, nought}
use koprobe.Float.Laws.{IsOrdered, IsRounded, IsNonneg}
use koprobe.GoMap.Ranging.{Order}
use koprobe.GoMap.Values.{All-perm}
use koprobe.Sorting.{Sorter, IsSorted, greater, sort-greater-IsSorted}
use koprobe.Aggregator.{PodCost, TeamCost, Snapshot, Aggregator, latest_snapshot, empty_snapshot}
use koprobe.Aggregator.Runs.{Run}
use koprobe.Aggregator.History.{latest_snapshot-All}
use koprobe.Aggregator.Signs.{IsNonnegSnapshot, Run-IsNonnegSnapshot}
use koprobe.Aggregator.Waste.{waste_report-eq-nil}
use koprobe.Slack.Bars.{build_bar-eq-cells}
use koprobe.Slack.Digest.{
  lines_from, Entry, Message, entry, team_line, waste_section, ranked, weekly_digest,
}

lines_from-eq :
    {A B : Type 0} (limit : ℕ) (line : A → B) (i : ℕ) (xs : List A)
    → lines_from limit line i xs ≡ map line (take (limit - i) xs)
unfolding lines_from
lines_from-eq limit line i [] = ap (map line) (sym (take-nil (limit - i)))
lines_from-eq limit line i (x ∷ xs) = elim (Bool-cases (leb limit i)) [
  | inl e ↦ let full : limit - i ≡ 0 = ground arith in rw (e, full)
  | inr e ↦
      let more : limit - i ≡ suc (limit - (i + 1)) = ground arith in
      rw (e, more) (ap (◌∷◌ (line x)) (lines_from-eq limit line (i + 1) xs))
]

module _ {F : Type 0} ⦃d : Double F⦄ where
  -- A message made for a snapshot: it shows the total, and a line with a bar of ten cells for each of
  -- the first five entries of a list that has an entry for each team, by falling cost.
  pub record IsDigestOf (laws : IsOrdered F) (order : Order (Text × TeamCost F))
      (sorter : Sorter (Entry F)) (snap : Snapshot F) (m : Message F) : Type 0 where
    pub total_eq : m.total ≡ snap.total
    pub teams_eq : m.teams ≡ map (team_line snap.total) (take 5 (ranked order sorter snap))
    pub every_team : Permᴰ (map entry (order.visit snap.team_costs)) (ranked order sorter snap)
    pub falling : IsSorted (greater laws (λ e. e.cost)) (ranked order sorter snap)
    pub bars : All (λ l. length l.bar ≡ 10) m.teams

  empty-IsNonnegSnapshot : IsRounded F → (now : ℤ) → IsNonnegSnapshot {F = F} (empty_snapshot now)
  empty-IsNonnegSnapshot laws now = record { total = laws.nought_nonneg; pods = tt; teams = tt }

  module _ (ordered : IsOrdered F) (rounded : IsRounded F) where
    ranked-IsSorted :
        (order : Order (Text × TeamCost F)) (sorter : Sorter (Entry F)) (snap : Snapshot F)
        → IsNonnegSnapshot snap
        → IsSorted (greater ordered (λ e. e.cost)) (ranked order sorter snap)
    unfolding ranked
    ranked-IsSorted order sorter snap h =
        sort-greater-IsSorted ordered (λ e. e.cost) sorter (map entry (order.visit snap.team_costs))
          (All-map _ entry _ (
            All-imp _ _ _ (λ e k. rounded.number_of_le nought e.1.total_cost k)
              (All-perm (λ e. IsNonneg e.1.total_cost) (order.visit-perm snap.team_costs) h.teams)))

    bars-length :
        (total : F) (entries : List (Entry F))
        → All (λ l. length l.bar ≡ 10) (map (team_line total) entries)
    bars-length total [] = tt
    bars-length total (t ∷ ts) = ((build_bar-eq-cells t.cost total).0, bars-length total ts)

    -- In every run of the daemon, where numbers are ordered and round as `IsOrdered` and `IsRounded`
    -- say, the weekly digest shows the total of the latest snapshot and its five most costly teams, or
    -- all if there are fewer, by falling cost, each with a bar of ten cells; and it never has a section
    -- on waste, in whatever state of a run the waste report finds the aggregator.
    pub weekly_digest-IsDigestOf :
        {snaps built : List (Snapshot F)} {a later : Aggregator F}
        (order : Order (Text × TeamCost F)) (sorter : Sorter (Entry F))
        (pods : Order (Text × PodCost F)) (now : ℤ)
        → Run snaps a
        → Run built later
        → let m = weekly_digest order sorter pods now a later in
          IsDigestOf ordered order sorter (latest_snapshot now a) m × (m.waste ≡ none)
    unfolding weekly_digest ranked
    weekly_digest-IsDigestOf {a = a} order sorter pods now r q =
        let snap = latest_snapshot now a in
        let rows = lines_from-eq 5 (team_line snap.total) 0 (ranked order sorter snap) in
        let good =
          latest_snapshot-All IsNonnegSnapshot now (empty-IsNonnegSnapshot rounded now)
            (Run-IsNonnegSnapshot rounded r) r in
        (
          record {
            total_eq = refl;
            teams_eq = rows;
            every_team =
                sorter.sort-perm (λ a b. b.cost ≺ a.cost) (map entry (order.visit snap.team_costs));
            falling = ranked-IsSorted order sorter snap good;
            bars =
                subst (All (λ l. length l.bar ≡ 10)) (sym rows)
                  (bars-length snap.total (take 5 (ranked order sorter snap)));
          },
          ap waste_section (waste_report-eq-nil ordered pods q).0 ∙ (unfold waste_section in refl),
        )
