-- ===== src/Float/Pico.antt =====
-- An instance for tests: whole multiples of 10 ^ -12, with products and quotients cut towards zero.
-- It has no NaN and no infinity, and x / 0 is 0 there.
use koprobe.Prelude.{
  ◌<◌, ◌≤◌, ℕ, zero, suc, ◌+◌, ◌*◌, ◌/◌, ◌^◌, Bool, arith, nat_beq, ℤ, pos, negsuc, ltb_ℤ, sub_ℕ,
  pos_part, neg_part, ◌&&◌,
}
use koprobe.Float.{Double, ◌⊕◌}
use koprobe.Float.Laws.{IsOrdered, IsRounded, IsFinitary, IsPositive}

abbrev pub Pico : Type 0
Pico = ℤ

abbrev unit : ℕ
unit = 10 ^ 12

abbrev minus : ℕ → ℤ
minus zero = pos 0
minus (suc n) = negsuc n

-- apply an operation to the magnitudes, and give the result the sign of a product
abbrev signed : (ℕ → ℕ → ℕ) → ℤ → ℤ → ℤ
signed f (pos a) (pos b) = pos (f a b)
signed f (pos a) (negsuc b) = minus (f a (suc b))
signed f (negsuc a) (pos b) = minus (f (suc a) b)
signed f (negsuc a) (negsuc b) = pos (f (suc a) (suc b))

abbrev each : (ℕ → ℕ) → ℤ → ℤ
each f (pos a) = pos (f a)
each f (negsuc a) = minus (f (suc a))

abbrev equal : ℤ → ℤ → Bool
equal a b = nat_beq (pos_part a) (pos_part b) && nat_beq (neg_part a) (neg_part b)

instance abbrev pub pico_double : Double Pico
pico_double = record {
  lit = λ m k. pos (m * unit / 10 ^ k);
  of_ℕ = λ n. pos (n * unit);
  of_ℤ = each (λ n. n * unit);
  add = λ a b. sub_ℕ (pos_part a + pos_part b) (neg_part a + neg_part b);
  sub = λ a b. sub_ℕ (pos_part a + neg_part b) (neg_part a + pos_part b);
  mul = signed (λ a b. a * b / unit);
  div = signed (λ a b. a * unit / b);
  lt = ltb_ℤ;
  eq = equal;
  trunc = each (λ n. n / unit);
  round = each (λ n. (n + unit / 2) / unit * unit);
}

pub Pico-IsOrdered : IsOrdered Pico
Pico-IsOrdered = record {
  lt_irrefl = λ x. ground arith;
  lt_trans = λ x y z p q. ground arith;
  lt_of_lt_of_le = λ x y z p q. ground arith;
  lt_of_le_of_lt = λ x y z p q. ground arith;
  lt_total = λ x y p q. ground arith;
}

pos-IsPositive : (v : ℕ) → 0 < v → IsPositive {F = Pico} (pos v)
pos-IsPositive v h = ground arith

sum-IsPositive : (v : ℕ) → 0 < v → IsPositive {F = Pico} (pos 0 ⊕ pos v)
sum-IsPositive v h = ground arith

scaled-le : (m k : ℕ) → 0 < m → k ≤ 6 → 10 ^ 6 ≤ m * unit / 10 ^ k
scaled-le m zero h b = omega arith
scaled-le m (suc zero) h b = omega arith
scaled-le m (suc (suc zero)) h b = omega arith
scaled-le m (suc (suc (suc zero))) h b = omega arith
scaled-le m (suc (suc (suc (suc zero)))) h b = omega arith
scaled-le m (suc (suc (suc (suc (suc zero))))) h b = omega arith
scaled-le m (suc (suc (suc (suc (suc (suc zero)))))) h b = omega arith
scaled-le m (suc (suc (suc (suc (suc (suc (suc k))))))) h b = absurd (omega arith)

quotient_pos : (a b : ℕ) → 0 < b → b ≤ a → 0 < a / b
quotient_pos a b h k = grind arith

product-le : (a b : ℕ) → 10 ^ 6 ≤ a → 10 ^ 6 ≤ b → unit ≤ a * b
product-le a b h k = grind arith

pub Pico-IsRounded : IsRounded Pico
Pico-IsRounded = record {
  number_of_le = λ x y h. ground arith;
  nought_nonneg = ground arith;
  of_ℕ_nonneg = λ n. ground arith;
  add_nonneg = λ x y h k. ground arith;
  mul_nonneg = λ x y h k. ground arith;
  div_nonneg = λ x y h k. ground arith;
  lit_positive = λ m k a b c. pos-IsPositive _ (omega (arith, scaled-le m k a c));
  lit_mul_positive = λ m k n j a b c e f g. pos-IsPositive _ (
      quotient_pos _ unit (omega arith) (
        product-le (m * unit / 10 ^ k) (n * unit / 10 ^ j) (scaled-le m k a c)
          (scaled-le n j e g)));
  ratio_positive = λ m n a b c e f.
      sum-IsPositive _ (quotient_pos (m * unit * unit) (n * unit / 1) (omega arith) (omega arith));
}

pub Pico-IsFinitary : IsFinitary Pico
Pico-IsFinitary = record {
  number_of_finite = λ x h. ground arith;
  add_number = λ x y h k. ground arith;
  round_nonneg = λ x h. ground arith;
  lit_div_positive = λ m n a b c e f.
      pos-IsPositive _
        (quotient_pos (m * unit / 1 * unit) (n * unit / 1) (omega arith) (omega arith));
}
