-- ===== src/Local/Main/Outcomes.antt =====
-- What `main` of cmd/local/main.go shows for each event, by the events before it.
use mathlib.Core.List.{append-nil, append_assoc}
use koprobe.Prelude.{
  ℕ, ◌+◌, ◌≡◌, refl, sym, ap, ◌∙◌, Bool, true, false, Text, Option, Option-cases, inl, inr, none,
  some, List, [], ◌∷◌, ◌++◌, map, length, length-append, if◌then◌else◌,
}
use koprobe.Float.{Double}
use koprobe.Local.{PodMetrics, update}
use koprobe.Local.Simulate.{tick}
use koprobe.Local.Loop.{Program, Round, Report, round, rounds, report}
use koprobe.Local.Server.{Page}
use koprobe.Local.Main.{Event, Shown, printed, ticked, visited, Tick, visit, play}
use koprobe.Prometheus.{Value}
use koprobe.Web.{Handler}

-- each element, with those before it
unfoldable pub splits : {A : Type 0} → List A → List A → List (List A × A)
splits seen [] = []
splits seen (x ∷ xs) = (seen, x) ∷ splits (seen ++ (x ∷ [])) xs

-- the values before the first `none`, and whether there is no `none`
unfoldable pub until_none : {A : Type 0} → List (Option A) → List A × Bool
until_none [] = ([], true)
until_none (none ∷ os) = ([], false)
until_none (some a ∷ os) = let (rest, all) = until_none os in (a ∷ rest, all)

-- the rounds of the ticks
unfoldable pub rounds_of : {F : Type 0} → List (Event F) → List (Round F)
rounds_of [] = []
rounds_of (ticked t ∷ es) = t.round ∷ rounds_of es
rounds_of (visited v ∷ es) = rounds_of es

rounds_of-append :
    {F : Type 0} (es fs : List (Event F)) → rounds_of (es ++ fs) ≡ rounds_of es ++ rounds_of fs
unfolding rounds_of
rounds_of-append [] fs = refl
rounds_of-append (ticked t ∷ es) fs = ap (λ l. t.round ∷ l) (rounds_of-append es fs)
rounds_of-append (visited v ∷ es) fs = rounds_of-append es fs

module _ {F : Type 0} ⦃d : Double F⦄ {R : Type 0} (draw : R → F × R) (sin : F → F) where
  -- the program after events
  abbrev pub after : Program F R → List (Event F) → Program F R
  after p es = rounds draw sin (rounds_of es) p

  rounds-append :
      (rs qs : List (Round F)) (p : Program F R)
      → rounds draw sin (rs ++ qs) p ≡ rounds draw sin qs (rounds draw sin rs p)
  unfolding rounds
  rounds-append [] qs p = refl
  rounds-append (r ∷ rs) qs p = rounds-append rs qs (round draw sin r p)

  after-ticked :
      (p : Program F R) (seen : List (Event F)) (t : Tick F)
      → round draw sin t.round (after p seen) ≡ after p (seen ++ (ticked t ∷ []))
  unfolding rounds rounds_of
  after-ticked p seen t = sym (
      ap (λ rs. rounds draw sin rs p) (rounds_of-append seen (ticked t ∷ []))
      ∙ rounds-append (rounds_of seen) (t.round ∷ []) p)

  after-visited :
      (p : Program F R) (seen : List (Event F)) (v : _)
      → after p seen ≡ after p (seen ++ (visited v ∷ []))
  unfolding rounds_of
  after-visited p seen v = sym (
      ap (λ rs. rounds draw sin rs p)
        (rounds_of-append seen (visited v ∷ []) ∙ append-nil (rounds_of seen)))

  length-rounds_of :
      (seen : List (Event F)) (t : Tick F)
      → length (rounds_of (seen ++ (ticked t ∷ []))) ≡ length (rounds_of seen) + 1
  unfolding rounds_of
  length-rounds_of seen t =
      ap length (rounds_of-append seen (ticked t ∷ []))
      ∙ length-append (rounds_of seen) (t.round ∷ [])

  -- the metrics of a round are the latest ones of its store
  latest-round :
      (r : Round F) (p : Program F R)
      → (tick draw sin r.ticked_at p.sim).0 ≡ (round draw sin r p).store.latest
  unfolding round update
  latest-round r p = refl

  module _ (encode : Page F → Text) (digits : Value F → Text) (unmatched : Handler)
      (quiet bound : Bool) (p : Program F R) where
    -- what an event shows after others; `none` is a panic
    unfoldable pub shown_at : List (Event F) × Event F → Option (Shown F)
    shown_at (seen, visited v) =
        some (visit draw sin encode digits unmatched bound v (after p seen).store)
    shown_at (seen, ticked t) =
        let st = (after p (seen ++ (ticked t ∷ []))).store in
        elim (report quiet t.order t.team_sorter t.pod_sorter (length (rounds_of seen) + 1)
          st.latest st) [ none ↦ none | some out ↦ some (printed out) ]

    -- what the events show, and where the program then stands
    abbrev pub outcome : List (Event F) → List (Event F) → List (Shown F) × Option (Program F R)
    outcome seen es =
        let (shown, all) = until_none (map shown_at (splits seen es)) in
        (shown, if all then some (after p (seen ++ es)) else none)

    add :
        Option (Shown F)
        → List (Shown F) × Option (Program F R)
        → List (Shown F) × Option (Program F R)
    add none rest = ([], none)
    add (some x) rest = (x ∷ rest.0, rest.1)

    outcome-cons :
        (seen : List (Event F)) (e : Event F) (es : List (Event F))
        → outcome seen (e ∷ es) ≡ add (shown_at (seen, e)) (outcome (seen ++ (e ∷ [])) es)
    unfolding splits until_none add
    outcome-cons seen e es = elim (Option-cases (shown_at (seen, e))) [
      | inl k ↦ rw (until_none, k) refl
      | inr (x, k) ↦
          let rest = until_none (map shown_at (splits (seen ++ (e ∷ [])) es)) in
          rw (until_none, k)
            (ap (λ l. (x ∷ rest.0, if rest.1 then some (after p l) else none))
              (sym (append_assoc seen (e ∷ []) es)))
    ]

    add-printed :
        (o : Option (Report F)) (rest : List (Shown F) × Option (Program F R))
        → (elim o [ none ↦ ([], none) | some out ↦ (printed out ∷ rest.0, rest.1) ])
          ≡ add (elim o [ none ↦ none | some out ↦ some (printed out) ]) rest
    unfolding add
    add-printed none rest = refl
    add-printed (some out) rest = refl

    play-visited :
        (seen : List (Event F)) (v : _) (es : List (Event F)) (count : ℕ)
        → play draw sin encode digits unmatched quiet bound count (visited v ∷ es) (after p seen)
          ≡ add (shown_at (seen, visited v)) (
              play draw sin encode digits unmatched quiet bound count es
                (after p (seen ++ (visited v ∷ []))))
    unfolding play shown_at add
    play-visited seen v es count =
        ap
          (λ (q : Program F R).
            let (shown, end) = play draw sin encode digits unmatched quiet bound count es q in
            (visit draw sin encode digits unmatched bound v (after p seen).store ∷ shown, end))
          (after-visited p seen v)

    play-ticked :
        (seen : List (Event F)) (t : Tick F) (es : List (Event F))
        → play draw sin encode digits unmatched quiet bound
            (length (rounds_of seen))
            (ticked t ∷ es)
            (after p seen)
          ≡ add (shown_at (seen, ticked t)) (
              play draw sin encode digits unmatched quiet bound
                (length (rounds_of seen) + 1)
                es
                (after p (seen ++ (ticked t ∷ []))))
    unfolding play shown_at add
    play-ticked seen t es =
        let count = length (rounds_of seen) + 1 in
        let shown : List (PodMetrics F) → Program F R → List (Shown F) × Option (Program F R) =
          λ metrics q.
            let rest = play draw sin encode digits unmatched quiet bound count es q in
            elim (report quiet t.order t.team_sorter t.pod_sorter count metrics q.store) [
              | none ↦ ([], none)
              | some out ↦ (printed out ∷ rest.0, rest.1)
            ] in
        ap (λ metrics. shown metrics (round draw sin t.round (after p seen)))
          (latest-round t.round (after p seen))
        ∙ ap (λ (q : Program F R). shown q.store.latest q) (after-ticked p seen t)
        ∙ add-printed _ _

    pub play-eq-outcome :
        (seen es : List (Event F))
        → play draw sin encode digits unmatched quiet bound
            (length (rounds_of seen))
            es
            (after p seen)
          ≡ outcome seen es
    unfolding play splits until_none
    play-eq-outcome seen [] = ap (λ l. ([], some (after p l))) (sym (append-nil seen))
    play-eq-outcome seen (visited v ∷ es) =
        let count : length (rounds_of seen) ≡ length (rounds_of (seen ++ (visited v ∷ []))) =
          ap length (
            sym (
              rounds_of-append seen (visited v ∷ [])
              ∙ (unfold rounds_of in append-nil (rounds_of seen)))) in
        play-visited seen v es (length (rounds_of seen))
        ∙ ap (add (shown_at (seen, visited v))) (
            ap
              (λ (n : ℕ).
                play draw sin encode digits unmatched quiet bound n es
                  (after p (seen ++ (visited v ∷ []))))
              count
            ∙ play-eq-outcome (seen ++ (visited v ∷ [])) es)
        ∙ sym (outcome-cons seen (visited v) es)
    play-eq-outcome seen (ticked t ∷ es) =
        play-ticked seen t es
        ∙ ap (add (shown_at (seen, ticked t))) (
            ap
              (λ (n : ℕ).
                play draw sin encode digits unmatched quiet bound n es
                  (after p (seen ++ (ticked t ∷ []))))
              (sym (length-rounds_of seen t))
            ∙ play-eq-outcome (seen ++ (ticked t ∷ [])) es)
        ∙ sym (outcome-cons seen (ticked t) es)
