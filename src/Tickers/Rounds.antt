-- ===== src/Tickers/Rounds.antt =====
-- A proof rule for the loops on tickers.
use mathlib.Core.List.{append-nil, append_assoc}
use mathlib.Core.Path.{subst}
use koprobe.Prelude.{
  ◌≡◌, refl, sym, Bool, true, false, Option, some, List, [], ◌∷◌, ◌++◌, if◌then◌else◌,
}
use koprobe.Tickers.{Signal, done, tick, meanwhile, Progress, returned, waiting, loop}

module _ {O S : Type 0} where
  -- whether the context has ended
  unfoldable pub is_done : List (Signal O S) → Bool
  is_done [] = false
  is_done (done ∷ signals) = true
  is_done (tick s ∷ signals) = is_done signals
  is_done (meanwhile o ∷ signals) = is_done signals

  -- the ticks before the end of the context
  unfoldable pub ticks_before : List (Signal O S) → List S
  ticks_before [] = []
  ticks_before (done ∷ signals) = []
  ticks_before (tick s ∷ signals) = s ∷ ticks_before signals
  ticks_before (meanwhile o ∷ signals) = ticks_before signals

  -- where a loop stands that does not panic
  unfoldable pub stands : {A : Type 0} → List (Signal O S) → A → Progress A
  stands signals a = if is_done signals then returned a else waiting a

  module _ {A : Type 0} (others : O → A → A) (body : S → A → Option A) (P : List S → A → Type 0)
      (shared : (seen : List S) (o : O) (a : A) → P seen a → P seen (others o a))
      (round : (seen : List S) (s : S) (a : A)
        → P seen a
        → (b : A) × (body s a ≡ some b) × P (seen ++ (s ∷ [])) b) where
    loop-from :
        (signals : List (Signal O S)) (seen : List S) (a : A)
        → P seen a
        → (b : A) × (loop others body signals a ≡ stands signals b)
          × P (seen ++ ticks_before signals) b
    unfolding loop stands is_done ticks_before
    loop-from [] seen a p = (a, refl, subst (λ l. P l a) (sym (append-nil seen)) p)
    loop-from (done ∷ signals) seen a p = (a, refl, subst (λ l. P l a) (sym (append-nil seen)) p)
    loop-from (meanwhile o ∷ signals) seen a p =
        loop-from signals seen (others o a) (shared seen o a p)
    loop-from (tick s ∷ signals) seen a p =
        let (b, same, q) = round seen s a p in
        let (c, rest, end) = loop-from signals (seen ++ (s ∷ [])) b q in
        (
          c,
          rw (loop, same) rest,
          subst (λ l. P l c) (append_assoc seen (s ∷ []) (ticks_before signals)) end,
        )

    -- From a state where `P` holds of no ticks, the loop never panics, and it stands in a state where
    -- `P` holds of the ticks before the end of the context, if that has come.
    pub loop-stands :
        (signals : List (Signal O S)) (a : A)
        → P [] a
        → (b : A) × (loop others body signals a ≡ stands signals b) × P (ticks_before signals) b
    loop-stands signals a p = loop-from signals [] a p
