-- ===== src/Enricher/Walk.antt =====
-- `resolveCgroupID`: the walk stops at the first directory on whose path the container's identifier
-- stands and whose `cgroup.id` opens.
use mathlib.Core.Path.{subst}
use koprobe.Prelude.{
  ℕ, ◌≡◌, ◌≢◌, refl, ap, ◌∙◌, ◌↔◌, Bool, true, false, ◌||◌, not, nat_eq, Text, none, some, List, [],
  ◌∷◌, ◌++◌, arith, Bool-cases, inl, inr,
}
use koprobe.Enricher.{Entry, contains, walk, resolve_cgroup_id}

-- The walk ends at this entry, having read `n`.
abbrev pub Ends : Text → ℕ → Entry → Type 0
Ends id n e =
    (e.failed ≡ false) × (e.is_dir ≡ true) × (contains e.path id ≡ true) × (e.id_file ≡ some n)

-- The walk goes on at this entry.
abbrev pub passes : Text → Entry → Bool
passes id e =
    e.failed
    || (not e.is_dir
        || (not (contains e.path id) || elim e.id_file [ none ↦ true | some _ ↦ false ]))

abbrev pub AllPass : Text → List Entry → Type 0
AllPass id [] = Unit
AllPass id (e ∷ es) = (passes id e ≡ true) × AllPass id es

-- The entry at which the walk ends, among those before and after it.
pub record Found (id : Text) (n : ℕ) (entries : List Entry) : Type 0 where
  pub before : List Entry
  pub at : Entry
  pub after : List Entry
  pub entries_eq : entries ≡ before ++ (at ∷ after)
  pub ends : Ends id n at
  pub passed : AllPass id before

Found-cons :
    (id : Text) (n : ℕ) (e : Entry) (es : List Entry)
    → passes id e ≡ true
    → Found id n es
    → Found id n (e ∷ es)
Found-cons id n e es p f = record {
  before = e ∷ f.before;
  at = f.at;
  after = f.after;
  entries_eq = ap (◌∷◌ e) f.entries_eq;
  ends = f.ends;
  passed = (p, f.passed);
}

walk_here : (id : Text) (e : Entry) (es : List Entry) (n : ℕ) → Ends id n e → walk id (e ∷ es) ≡ n
unfolding walk
walk_here id e es n h = ground arith

walk_on :
    (id : Text) (e : Entry) (es : List Entry) → passes id e ≡ true → walk id (e ∷ es) ≡ walk id es
unfolding walk
walk_on id e es h = ground arith

stop-Ends :
    (id : Text) (e : Entry) (es : List Entry) → passes id e ≡ false → Ends id (walk id (e ∷ es)) e
unfolding walk
stop-Ends id e es h = ground arith

Found-walk : (id : Text) (es : List Entry) → walk id es ≢ 0 → Found id (walk id es) es
Found-walk id [] h = absurd (h (unfold walk in refl))
Found-walk id (e ∷ es) h = elim (Bool-cases (passes id e)) [
  | inl p ↦
      rw (walk_on id e es p)
        (Found-cons id (walk id es) e es p (Found-walk id es (rw (walk_on id e es p) at h)))
  | inr p ↦ record {
    before = [];
    at = e;
    after = es;
    entries_eq = refl;
    ends = stop-Ends id e es p;
    passed = tt;
  }
]

walk-append :
    (id : Text) (before after : List Entry)
    → AllPass id before
    → walk id (before ++ after) ≡ walk id after
walk-append id [] after h = refl
walk-append id (e ∷ before) after h =
    walk_on id e (before ++ after) h.0 ∙ walk-append id before after h.1

walk-Found : (id : Text) (n : ℕ) (es : List Entry) → Found id n es → walk id es ≡ n
walk-Found id n es f =
    ap (walk id) f.entries_eq
    ∙ walk-append id f.before (f.at ∷ f.after) f.passed
    ∙ walk_here id f.at f.after n f.ends

resolve_of_walk :
    (id : Text) (es : List Entry) (n : ℕ)
    → (resolve_cgroup_id es id ≡ some n) ↔ ((walk id es ≡ n) × (n ≢ 0))
unfolding resolve_cgroup_id
resolve_of_walk id es n = (λ e. ground arith, λ (e, h). ground arith)

-- A container resolves to the cgroup `n` exactly when `n` is not 0 and stands in the `cgroup.id` of
-- the first directory with the container's identifier in its path whose file opens.
pub resolve_cgroup_id_iff :
    (id : Text) (es : List Entry) (n : ℕ)
    → (resolve_cgroup_id es id ≡ some n) ↔ (Found id n es × (n ≢ 0))
resolve_cgroup_id_iff id es n = (
  λ e.
      let (w, h) = (resolve_of_walk id es n).0 e in
      (subst (λ k. Found id k es) w (Found-walk id es (rw w h)), h),
  λ (f, h). (resolve_of_walk id es n).1 (walk-Found id n es f, h),
)
