-- ===== src/Prelude/Keys.antt =====
-- Go's `==` on keys, as an interface: numbers, and texts as lists of code points.
use Prim.Native.Nat.{ℕ}
use Prim.Native.Char.{code}
use Prim.Native.String.{String}
use mathlib.Core.Path.{◌≡◌, refl}
use mathlib.Core.Logic.{◌↔◌, ◌≢◌}
use mathlib.Core.Bool.{Bool, true, false, ◌&&◌}
use mathlib.Core.List.{List, [], ◌∷◌}
use native.Mathlib.Omega.{arith}
use koprobe.Prelude.Tests.{nat_beq, nat_beq_iff}

-- A Go string, as the list of its code points.
abbrev pub Text : Type 0
Text = List ℕ

abbrev pub codes : String → Text
codes String.[] = []
codes (String.◌∷◌ c s) = code c ∷ codes s

abbrev pub text_beq : Text → Text → Bool
text_beq [] [] = true
text_beq [] (_ ∷ _) = false
text_beq (_ ∷ _) [] = false
text_beq (a ∷ s) (b ∷ t) = nat_beq a b && text_beq s t

pub text_beq_sound : (s t : Text) → text_beq s t ≡ true → s ≡ t
text_beq_sound [] [] h = refl
text_beq_sound [] (_ ∷ _) h = ground arith
text_beq_sound (_ ∷ _) [] h = ground arith
text_beq_sound (a ∷ s) (b ∷ t) h = ground (arith, text_beq_sound s t)

pub text_beq_refl : (s t : Text) → s ≡ t → text_beq s t ≡ true
text_beq_refl [] [] h = refl
text_beq_refl [] (_ ∷ _) h = ground arith
text_beq_refl (_ ∷ _) [] h = ground arith
text_beq_refl (a ∷ s) (b ∷ t) h = ground (arith, text_beq_refl s t)

-- The keys of a map: a test that decides equality.
pub record Eq {κ} (K : Type κ) : Type κ where
  pub same : K → K → Bool
  pub same_iff : (j k : K) → (same j k ≡ true) ↔ (j ≡ k)

instance abbrev pub text_eq : Eq Text
text_eq = record { same = text_beq; same_iff = λ s t. (text_beq_sound s t, text_beq_refl s t) }

pub text_ne : (s t : Text) → text_beq s t ≡ false → s ≢ t
text_ne s t h = λ e. cc (h, text_beq_refl s t e)

instance abbrev pub nat_eq : Eq ℕ
nat_eq = record { same = nat_beq; same_iff = nat_beq_iff }

infix 50 ◌==◌
abbrev pub ◌==◌ {κ} : {K : Type κ} ⦃e : Eq K⦄ → K → K → Bool
◌==◌ ⦃e⦄ j k = e.same j k
