-- ===== src/Float/Exact.antt =====
-- A concrete arithmetic, for tests: sums and differences of doubles without rounding.
use real_time_risk_fraud_eng.Prelude.{ℕ, ◌≤◌, ◌≡◌, true, false, some, none, arith}
use real_time_risk_fraud_eng.Prelude.Int.{◌-ℤ◌, pos}
use real_time_risk_fraud_eng.Float.{Float, nan, ninf, pinf, fin, Arithmetic, le, is_nan, exact}

unfoldable pub negated : Float → Float
negated nan = nan
negated ninf = pinf
negated pinf = ninf
negated (fin a) = fin (pos 0 -ℤ a)

unfoldable pub exact_sub : Float → Float → Float
exact_sub nan y = nan
exact_sub ninf nan = nan
exact_sub ninf ninf = nan
exact_sub ninf pinf = ninf
exact_sub ninf (fin b) = ninf
exact_sub pinf nan = nan
exact_sub pinf ninf = pinf
exact_sub pinf pinf = nan
exact_sub pinf (fin b) = pinf
exact_sub (fin a) nan = nan
exact_sub (fin a) ninf = pinf
exact_sub (fin a) pinf = ninf
exact_sub (fin a) (fin b) = fin (a -ℤ b)

-- Products and quotients are those by one, which a test with equal amounts needs.
abbrev pub exact_arithmetic : Arithmetic
exact_arithmetic = record {
  add = λ x y. exact_sub x (negated y);
  sub = exact_sub;
  mul = λ x y. x;
  div = λ x y. x;
  sqrt = λ x. x;
  log1p = λ x. x;
  of_int = λ i. some (exact i);
  of_string = λ s. none;
}

pub exact_sub_mono :
    (n : ℕ) (x y : Float)
    → le x y ≡ true
    → le (exact_sub x (exact (pos n))) (exact_sub y (exact (pos n))) ≡ true
unfolding le exact_sub exact ◌-ℤ◌
exact_sub_mono n x y h = ground arith

pub exact_sub_anti :
    (m n : ℕ) (x : Float)
    → m ≤ n
    → is_nan x ≡ false
    → le (exact_sub x (exact (pos n))) (exact_sub x (exact (pos m))) ≡ true
unfolding le exact_sub exact is_nan ◌-ℤ◌
exact_sub_anti m n x h k = grind arith

pub exact_sub_zero : (x : Float) → exact_sub x (exact (pos 0)) ≡ x
unfolding exact_sub exact ◌-ℤ◌
exact_sub_zero x = ground arith
