-- ===== src/Float/Order.antt =====
-- The order of the floats that are not NaN, and what a comparison with NaN says.
use real_time_risk_fraud_eng.Prelude.{◌≡◌, true, false, not, arith}
use real_time_risk_fraud_eng.Float.{Float, is_nan, lt, le}

pub le_refl : (x : Float) → is_nan x ≡ false → le x x ≡ true
unfolding le is_nan
le_refl x h = ground arith

pub lt-eq-not-le : (x y : Float) → is_nan x ≡ false → is_nan y ≡ false → lt x y ≡ not (le y x)
unfolding lt le is_nan
lt-eq-not-le x y h k = ground arith

pub lt_irrefl : (x : Float) → lt x x ≡ false
unfolding lt
lt_irrefl x = ground arith

pub lt→le : (x y : Float) → lt x y ≡ true → le x y ≡ true
unfolding lt le
lt→le x y h = ground arith

pub le_trans : (x y z : Float) → le x y ≡ true → le y z ≡ true → le x z ≡ true
unfolding le
le_trans x y z h k = ground arith

pub lt_of_lt_of_le : (x y z : Float) → lt x y ≡ true → le y z ≡ true → lt x z ≡ true
unfolding lt le
lt_of_lt_of_le x y z h k = ground arith

pub lt_of_le_of_lt : (x y z : Float) → le x y ≡ true → lt y z ≡ true → lt x z ≡ true
unfolding lt le
lt_of_le_of_lt x y z h k = ground arith

pub not_nan_of_le_left : (x y : Float) → le x y ≡ true → is_nan x ≡ false
unfolding le is_nan
not_nan_of_le_left x y h = ground arith

pub not_nan_of_le_right : (x y : Float) → le x y ≡ true → is_nan y ≡ false
unfolding le is_nan
not_nan_of_le_right x y h = ground arith
