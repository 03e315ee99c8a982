-- ===== src/Local/Pages/Reversed.antt =====
-- The page of alerts over every run: the loop that fills the reversed slice.
use mathlib.Core.List.{reverse, reverse-cons, append-nil, append_assoc}
use koprobe.Prelude.{
  ℕ, zero, suc, ◌+◌, ◌-◌, ◌≡◌, refl, sym, ap, ◌∙◌, List, [], ◌∷◌, ◌++◌, length, length-append, min,
  arith,
}
use koprobe.Float.{Double}
use koprobe.Window.{length-suffix, suffix}
use koprobe.Local.{HistoryPoint, Alert, Store}
use koprobe.Local.Recent.{Run, update-suffix}
use koprobe.Local.Pages.{put, fill, copies, alerts_page}

module _ {A : Type 0} where
  put-copies :
      (n : ℕ) (x blank : A) (done : List A)
      → put n x (copies (suc n) blank ++ done) ≡ copies n blank ++ (x ∷ done)
  unfolding put copies
  put-copies zero x blank done = refl
  put-copies (suc n) x blank done = ap (◌∷◌ blank) (put-copies n x blank done)

  reverse_onto :
      (a : A) (rest done : List A) → reverse rest ++ (a ∷ done) ≡ reverse (a ∷ rest) ++ done
  reverse_onto a rest done =
      sym (append_assoc (reverse rest) (a ∷ []) done)
      ∙ ap (λ l. l ++ done) (sym (reverse-cons a rest))

  -- the slots not yet written are the first ones
  fill-eq-reverse :
      (size i : ℕ) (alerts done : List A) (blank : A)
      → size ≡ i + length alerts
      → fill size i alerts (copies (length alerts) blank ++ done) ≡ reverse alerts ++ done
  unfolding fill copies
  fill-eq-reverse size i [] done blank h = refl
  fill-eq-reverse size i (a ∷ rest) done blank h =
      let slot : size - 1 - i ≡ length rest = omega (arith, h) in
      ap (λ k. fill size (i + 1) rest (put k a (copies (suc (length rest)) blank ++ done))) slot
      ∙ ap (fill size (i + 1) rest) (put-copies (length rest) a blank done)
      ∙ fill-eq-reverse size (i + 1) rest (a ∷ done) blank (omega (arith, h))
      ∙ reverse_onto a rest done

  length-reverse : (xs : List A) → length (reverse xs) ≡ length xs
  length-reverse [] = refl
  length-reverse (x ∷ xs) =
      ap length (reverse-cons x xs)
      ∙ omega (arith, length-append (reverse xs) (x ∷ []), length-reverse xs)

module _ {F : Type 0} ⦃d : Double F⦄ where
  alerts_page-of_store :
      (blank : Alert F) (st : Store F)
      → alerts_page blank st ≡ (reverse st.alerts, length st.alerts)
  unfolding alerts_page
  alerts_page-of_store blank st =
      let size = length st.alerts in
      let whole = ap (fill size 0 st.alerts) (sym (append-nil (copies size blank))) in
      let same =
        whole
        ∙ fill-eq-reverse size 0 st.alerts [] blank (omega arith)
        ∙ append-nil (reverse st.alerts) in
      ap (λ l. (l, length l)) same ∙ ap (λ n. (reverse st.alerts, n)) (length-reverse st.alerts)

  -- Over every run of updates, the page of alerts is the last 50 alerts called for, newest first, and
  -- its count is 50, or the number of them if it is less.
  pub alerts_page-eq-reverse :
      {points : List (HistoryPoint F)} {alerts : List (Alert F)} {st : Store F} (blank : Alert F)
      → Run points alerts st
      → alerts_page blank st ≡ (reverse (suffix 50 alerts), min 50 (length alerts))
  alerts_page-eq-reverse {alerts = alerts} {st = st} blank run =
      let kept = (update-suffix run).1 in
      alerts_page-of_store blank st
      ∙ ap (λ l. (reverse l, length l)) kept
      ∙ ap (λ n. (reverse (suffix 50 alerts), n)) (length-suffix 50 alerts)
