-- ===== src/Baselines.antt =====
-- The loop that `checkAnomalies` (internal/exporter/slack.go) and `Store.Update`
-- (cmd/local/main.go) have in common: over the teams and their costs, a team without a baseline gets
-- its cost as one, and for another team alerts are raised and the baseline moves.
use mathlib.Core.List.{append-nil, append_assoc}
use koprobe.Prelude.{
  ◌≡◌, refl, sym, ap, ◌∙◌, ◌==◌, text_eq, text_beq_sound, text_beq_refl, Text, foldl, List, [], ◌∷◌,
  ◌++◌, Option, none, some, arith, if◌then◌else◌, Option-cases, inl, inr,
}
use koprobe.GoMap.{Map, lookup, insert, lookup-insert, IsMap}
use koprobe.GoMap.Ranging.{Order, lookup-perm}

-- What the loop changes: the baselines, and the alerts raised so far.
pub record Tracker (F A : Type 0) : Type 0 where
  pub baselines : Map Text F
  pub raised : List A

-- What a program reads as a team's cost, how it judges the cost against the team's baseline, and how
-- the baseline moves.
pub record Policy (F V A : Type 0) : Type 0 where
  pub cost_in : V → F
  pub alerts : Text → F → F → List A
  pub next : F → F → F

module _ {F V A : Type 0} (policy : Policy F V A) where
  open policy use {cost_in, alerts, next}

  -- the body of the loop
  unfoldable pub check : Tracker F A → Text × V → Tracker F A
  check s (team, v) = elim (lookup team s.baselines) [
    | none ↦ record s { baselines = insert team (cost_in v) s.baselines }
    | some baseline ↦ record {
      baselines = insert team (next baseline (cost_in v)) s.baselines;
      raised = s.raised ++ alerts team baseline (cost_in v);
    }
  ]

  unfoldable pub check_all : Tracker F A → List (Text × V) → Tracker F A
  check_all s teams = foldl check s teams

  -- What a team's baseline should become, from the old one and from its v.
  abbrev pub renewed : Option F → Option V → Option F
  renewed old none = old
  renewed none (some v) = some (cost_in v)
  renewed (some baseline) (some v) = some (next baseline (cost_in v))

  -- The alerts that the teams of a list deserve, each by its baseline in `old`.
  unfoldable pub deserved : Map Text F → List (Text × V) → List A
  deserved old [] = []
  deserved old ((team, v) ∷ teams) = elim (lookup team old) [
    | none ↦ deserved old teams
    | some baseline ↦ alerts team baseline (cost_in v) ++ deserved old teams
  ]

  -- another team's baseline is no matter
  deserved-insert :
      (team : Text) (x : F) (old : Map Text F) (teams : List (Text × V))
      → lookup team teams ≡ none
      → deserved (insert team x old) teams ≡ deserved old teams
  unfolding deserved lookup
  deserved-insert team x old [] h = refl
  deserved-insert team x old ((other, v) ∷ teams) h = ground (
    arith,
    lookup-insert team other x old,
    deserved-insert team x old teams,
    text_beq_sound team other,
    text_beq_refl other team,
  )

  lookup-check :
      (q team : Text) (v : V) (s : Tracker F A)
      → lookup q (check s (team, v)).baselines
        ≡ (if team == q then renewed (lookup q s.baselines) (some v) else lookup q s.baselines)
  unfolding check
  lookup-check q team v s = elim (Option-cases (lookup team s.baselines)) [
    | inl e ↦ ground (arith, e, lookup-insert team q (cost_in v) s.baselines, text_beq_sound team q)
    | inr (b, e) ↦
        ground
          (arith, e, lookup-insert team q (next b (cost_in v)) s.baselines, text_beq_sound team q)
  ]

  baselines-cons :
      (team other : Text) (v : V) (teams : List (Text × V)) (s : Tracker F A)
      → lookup other teams ≡ none
      → renewed (lookup team (check s (other, v)).baselines) (lookup team teams)
        ≡ renewed (lookup team s.baselines) (lookup team ((other, v) ∷ teams))
  unfolding lookup
  baselines-cons team other v teams s h =
      ground (arith, lookup-check team other v s, text_beq_sound other team)

  baselines-foldl :
      (team : Text) (teams : List (Text × V)) (s : Tracker F A)
      → IsMap teams
      → lookup team (foldl check s teams).baselines
        ≡ renewed (lookup team s.baselines) (lookup team teams)
  baselines-foldl team [] s h = unfold lookup in refl
  baselines-foldl team ((other, v) ∷ teams) s h =
      baselines-foldl team teams (check s (other, v)) h.1 ∙ baselines-cons team other v teams s h.0

  raised-check :
      (team : Text) (v : V) (teams : List (Text × V)) (s : Tracker F A)
      → lookup team teams ≡ none
      → (check s (team, v)).raised ++ deserved (check s (team, v)).baselines teams
        ≡ s.raised ++ deserved s.baselines ((team, v) ∷ teams)
  unfolding check deserved
  raised-check team v teams s h = elim (Option-cases (lookup team s.baselines)) [
    | inl e ↦ ground (arith, e, deserved-insert team (cost_in v) s.baselines teams)
    | inr (b, e) ↦ ground (
      arith,
      e,
      deserved-insert team (next b (cost_in v)) s.baselines teams,
      append_assoc s.raised (alerts team b (cost_in v)) (deserved s.baselines teams),
    )
  ]

  raised-foldl :
      (teams : List (Text × V)) (s : Tracker F A)
      → IsMap teams
      → (foldl check s teams).raised ≡ s.raised ++ deserved s.baselines teams
  raised-foldl [] s h = unfold deserved in sym (append-nil s.raised)
  raised-foldl ((team, v) ∷ teams) s h =
      raised-foldl teams (check s (team, v)) h.1 ∙ raised-check team v teams s h.0

  -- The loop, whatever the order in which it visits a map of costs.
  pub check_all_lem :
      (order : Order (Text × V)) (teams : Map Text V) (s : Tracker F A)
      → IsMap teams
      → ((team : Text)
          → lookup team (check_all s (order.visit teams)).baselines
            ≡ renewed (lookup team s.baselines) (lookup team teams))
        × ((check_all s (order.visit teams)).raised
            ≡ s.raised ++ deserved s.baselines (order.visit teams))
  unfolding check_all
  check_all_lem order teams s h =
      let (d, same) = lookup-perm (order.visit-perm teams) h in
      (
        λ team.
            baselines-foldl team (order.visit teams) s d
            ∙ ap (renewed (lookup team s.baselines)) (sym (same team)),
        raised-foldl (order.visit teams) s d,
      )
