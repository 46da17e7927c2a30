-- ===== src/Value.antt =====
-- The Python values that reach the program from outside: JSON scalars and numbers.
use real_time_risk_fraud_eng.Prelude.{Bool, String}
use real_time_risk_fraud_eng.Prelude.Int.{ℤ}
use real_time_risk_fraud_eng.Float.{Float, exact}

-- An `int` or a `float`.
pub data Number : Type 0 where
  int : ℤ → Number
  float : Float → Number

-- The exact value by which Python compares a number with a float.
unfoldable pub value_of : Number → Float
unfolding exact
value_of (int i) = exact i
value_of (float x) = x

-- `other` is any object that is none of these, such as a list.
pub data Value : Type 0 where
  null other : Value
  bool : Bool → Value
  number : Number → Value
  str : String → Value
