-- ===== src/Decision/Policy/Validity.antt =====
-- What construction accepts, and the round trip through a dict.
use real_time_risk_fraud_eng.Prelude.{◌≡◌, String, true, arith}
use real_time_risk_fraud_eng.Float.{le, zero_float, one_float}
use real_time_risk_fraud_eng.Float.Order.{lt-eq-not-le, not_nan_of_le_left}
use real_time_risk_fraud_eng.Value.{Value, number, value_of}
use real_time_risk_fraud_eng.Result.{ok}
use real_time_risk_fraud_eng.Decision.Policy.{Policy, in_unit, construct, to_dict, from_dict}

-- Both thresholds lie in [0, 1], and they are in order.
pub record IsValid (p : Policy) : Type 0 where
  pub approve_low : le zero_float (value_of p.approve_at) ≡ true
  pub approve_high : le (value_of p.approve_at) one_float ≡ true
  pub block_low : le zero_float (value_of p.block_at) ≡ true
  pub block_high : le (value_of p.block_at) one_float ≡ true
  pub ordered : le (value_of p.approve_at) (value_of p.block_at) ≡ true

-- What the constructor returns satisfies the policy's invariant, and holds the given values.
pub construct-IsValid :
    (a b : Value) (name : String) (p : Policy)
    → construct a b name ≡ ok p
    → IsValid p × (a ≡ number p.approve_at) × (b ≡ number p.block_at) × (name ≡ p.name)
unfolding construct in_unit
construct-IsValid (number x) (number y) name p h = ground (
  arith,
  lt-eq-not-le (value_of y) (value_of x),
  not_nan_of_le_left (value_of x) one_float,
  not_nan_of_le_left (value_of y) one_float,
)
construct-IsValid (number x) _ name p h = ground arith
construct-IsValid _ b name p h = ground arith

-- A valid policy is what the constructor returns for its own fields.
pub construct_of_valid :
    (p : Policy) → IsValid p → construct (number p.approve_at) (number p.block_at) p.name ≡ ok p
unfolding construct in_unit
construct_of_valid p v = ground (
  arith,
  lt-eq-not-le (value_of p.block_at) (value_of p.approve_at),
  not_nan_of_le_left (value_of p.approve_at) one_float,
  not_nan_of_le_left (value_of p.block_at) one_float,
)

-- `from_dict` after `to_dict` gives a valid policy back.
from_dict-to_dict : (p : Policy) → IsValid p → from_dict (to_dict p) ≡ ok p
unfolding from_dict to_dict
from_dict-to_dict p v = construct_of_valid p v
