-- ===== src/Aggregator/Teams.antt =====
-- A snapshot's team costs against its pod costs: every pod is counted in its own team, once.
use mathlib.Core.Path.{subst}
use mathlib.Core.List.{append-nil, append_assoc}
use koprobe.Prelude.{
  ◌≡◌, refl, sym, ap, ◌∙◌, ◌==◌, text_eq, Text, ℤ, length, select, foldl, Option, none, some, List,
  [], ◌∷◌, ◌++◌, arith, if◌then◌else◌, Bool-cases, inl, inr, text_beq_sound, length-append,
  select-append,
}
use koprobe.Float.{Double, ◌⊕◌}
use koprobe.Float.Sums.{sum, sum-snoc}
use koprobe.GoMap.{Map, lookup, lookup_or, lookup-change, IsMap, change-IsMap}
use koprobe.Aggregator.{
  PodCost, TeamCost, Snapshot, empty_team, add_pod_cost, add_to_snapshot, empty_snapshot,
  build_snapshot,
}

module _ {F : Type 0} ⦃d : Double F⦄ where
  -- the pods of a team, in the order in which they were visited
  abbrev pub pods_of : Text → List (PodCost F) → List (PodCost F)
  pods_of team = select (λ c. c.team == team)

  -- what a team's entry should be, from its pods alone
  abbrev pub team_of : Text → List (PodCost F) → TeamCost F
  team_of team pods = record {
    team = team;
    total_cost = sum (λ c. c.total_cost) pods;
    pod_count = length pods;
    wasted_cost = sum (λ c. c.wasted_dollars) pods;
    pods = pods;
  }

  -- the entry of a team: none without pods
  unfoldable pub entry_of : Text → List (PodCost F) → Option (TeamCost F)
  entry_of team [] = none
  entry_of team (c ∷ cs) = some (team_of team (c ∷ cs))

  lookup-add_to_snapshot :
      (team : Text) (s : Snapshot F) (c : PodCost F)
      → lookup team (add_to_snapshot s c).team_costs ≡ (
          if c.team == team
          then some (add_pod_cost c (lookup_or (empty_team team) team s.team_costs))
          else lookup team s.team_costs)
  unfolding add_to_snapshot
  lookup-add_to_snapshot team s c = ground (
    arith,
    lookup-change c.team team (empty_team c.team) (add_pod_cost c) s.team_costs,
    text_beq_sound c.team team,
  )

  entry_of-snoc :
      (team : Text) (qs : List (PodCost F)) (c : PodCost F)
      → entry_of team (qs ++ (c ∷ [])) ≡ some (team_of team (qs ++ (c ∷ [])))
  unfolding entry_of
  entry_of-snoc team [] c = refl
  entry_of-snoc team (q ∷ qs) c = refl

  add_pod_cost-team_of :
      (team : Text) (qs : List (PodCost F)) (c : PodCost F)
      → add_pod_cost c (team_of team qs) ≡ team_of team (qs ++ (c ∷ []))
  unfolding add_pod_cost
  add_pod_cost-team_of team qs c = ground (
    arith,
    sum-snoc (λ k. k.total_cost) qs c,
    sum-snoc (λ k. k.wasted_dollars) qs c,
    length-append qs (c ∷ []),
  )

  team_of_entry :
      (team : Text) (qs : List (PodCost F)) (teams : Map Text (TeamCost F))
      → lookup team teams ≡ entry_of team qs
      → lookup_or (empty_team team) team teams ≡ team_of team qs
  unfolding entry_of
  team_of_entry team [] teams h = rw (h, lookup_or) (unfold sum in refl)
  team_of_entry team (q ∷ qs) teams h = rw (h, lookup_or)

  -- What a snapshot says of a list of pods: it lists them, adds up their costs in their order, and
  -- has for each team an entry made from that team's pods alone, and for no other team.
  pub record Summarises (costs : List (PodCost F)) (s : Snapshot F) : Type 0 where
    pub pods_eq : s.pod_costs ≡ costs
    pub total_eq : s.total ≡ sum (λ c. c.total_cost) costs
    pub teams_eq : (team : Text) → lookup team s.team_costs ≡ entry_of team (pods_of team costs)

  pods_of-snoc :
      (team : Text) (costs : List (PodCost F)) (c : PodCost F)
      → pods_of team (costs ++ (c ∷ []))
        ≡ (if c.team == team then pods_of team costs ++ (c ∷ []) else pods_of team costs)
  pods_of-snoc team costs c =
      select-append (λ k. k.team == team) costs (c ∷ [])
      ∙ ground (arith, append-nil (pods_of team costs))

  teams-step :
      (team : Text) (costs : List (PodCost F)) (s : Snapshot F) (c : PodCost F)
      → lookup team s.team_costs ≡ entry_of team (pods_of team costs)
      → lookup team (add_to_snapshot s c).team_costs
        ≡ entry_of team (pods_of team (costs ++ (c ∷ [])))
  teams-step team costs s c h =
      let qs = pods_of team costs in
      let after = lookup-add_to_snapshot team s c in
      let new = pods_of-snoc team costs c in
      elim (Bool-cases (c.team == team)) [
        | inl e ↦
            (rw e at after)
            ∙ ap (λ t. some (add_pod_cost c t)) (team_of_entry team qs s.team_costs h)
            ∙ ap some (add_pod_cost-team_of team qs c)
            ∙ sym (entry_of-snoc team qs c)
            ∙ sym (ap (entry_of team) (rw e at new))
        | inr e ↦ (rw e at after) ∙ h ∙ sym (ap (entry_of team) (rw e at new))
      ]

  Summarises-step :
      (costs : List (PodCost F)) (s : Snapshot F) (c : PodCost F)
      → Summarises costs s
      → Summarises (costs ++ (c ∷ [])) (add_to_snapshot s c)
  Summarises-step costs s c h = record {
    pods_eq = unfold add_to_snapshot in ap (λ l. l ++ (c ∷ [])) h.pods_eq;
    total_eq =
        unfold add_to_snapshot in
        ap (λ t. t ⊕ c.total_cost) h.total_eq ∙ sym (sum-snoc (λ k. k.total_cost) costs c);
    teams_eq = λ team. teams-step team costs s c (h.teams_eq team);
  }

  Summarises-foldl :
      (before costs : List (PodCost F)) (s : Snapshot F)
      → Summarises before s
      → Summarises (before ++ costs) (foldl add_to_snapshot s costs)
  Summarises-foldl before [] s h = subst (λ l. Summarises l s) (sym (append-nil before)) h
  Summarises-foldl before (c ∷ costs) s h =
      subst (λ l. Summarises l (foldl add_to_snapshot (add_to_snapshot s c) costs))
        (append_assoc before (c ∷ []) costs)
        (Summarises-foldl (before ++ (c ∷ [])) costs (add_to_snapshot s c)
          (Summarises-step before s c h))

  -- The snapshot that `collect` builds lists the pods in the order visited; its total is the sum of
  -- their costs in that order; and for every team its entry holds exactly the team's pods, their
  -- number, and the sums of their costs and of their waste, in that order too. A team has an entry
  -- only if it has a pod.
  pub build_snapshot-Summarises :
      (now : ℤ) (costs : List (PodCost F)) → Summarises costs (build_snapshot now costs)
  unfolding build_snapshot
  build_snapshot-Summarises now costs = Summarises-foldl [] costs (empty_snapshot now) (record {
    pods_eq = refl;
    total_eq = unfold sum in refl;
    teams_eq = λ team. unfold lookup entry_of in refl;
  })

  foldl-IsMap :
      (costs : List (PodCost F)) (s : Snapshot F)
      → IsMap s.team_costs
      → IsMap (foldl add_to_snapshot s costs).team_costs
  unfolding add_to_snapshot
  foldl-IsMap [] s h = h
  foldl-IsMap (c ∷ costs) s h =
      foldl-IsMap costs (add_to_snapshot s c)
        (change-IsMap c.team (empty_team c.team) (add_pod_cost c) s.team_costs h)

  -- no team stands twice in a snapshot
  pub build_snapshot-IsMap :
      (now : ℤ) (costs : List (PodCost F)) → IsMap (build_snapshot now costs).team_costs
  unfolding build_snapshot
  build_snapshot-IsMap now costs = foldl-IsMap costs (empty_snapshot now) tt
