-- ===== src/Decision/Policy.antt =====
-- `DecisionPolicy` (src/decision/policy.py): thresholds that are validated on construction, and the
-- decision for an array of scores.
pub mod Shape
pub mod Validity
pub mod Classify
pub mod Tests
use real_time_risk_fraud_eng.Prelude.{
  Bool, String, Option, none, some, List, [], ◌∷◌, not, ◌&&◌, any, map, if◌then◌else◌,
}
use real_time_risk_fraud_eng.Float.{Float, is_nan, lt, le, zero_float, one_float}
use real_time_risk_fraud_eng.Value.{Number, Value, null, other, bool, number, str, value_of}
use real_time_risk_fraud_eng.Result.{Result, ok, err, ◌>>=◌, ◌>>◌, raise_if}

pub data Decision : Type 0 where
  approve review block : Decision

pub data Label : Type 0 where
  approve_threshold block_threshold : Label

-- The `InvalidThresholdError`s, and the `ValueError` of a NaN score.
pub data PolicyError : Type 0 where
  not_numeric out_of_range : Label → PolicyError
  out_of_order nan_score : PolicyError

pub record Policy : Type 0 where
  pub approve_at : Number
  pub block_at : Number
  pub name : String

-- isinstance(value, (int, float)) and not isinstance(value, bool)
as_number : Value → Option Number
as_number null = none
as_number other = none
as_number (bool _) = none
as_number (number n) = some n
as_number (str _) = none

-- 0.0 <= value <= 1.0
unfoldable pub in_unit : Number → Bool
in_unit n = le zero_float (value_of n) && le (value_of n) one_float

checked_number : Label → Option Number → Result PolicyError Number
checked_number l none = err (not_numeric l)
checked_number l (some n) = do raise_if (not (in_unit n)) (out_of_range l); ok n

-- One round of the loop of `__post_init__`.
check_threshold : Label → Value → Result PolicyError Number
unfolding as_number checked_number
check_threshold l v = checked_number l (as_number v)

-- `DecisionPolicy(...)` with its `__post_init__`.
unfoldable pub construct : Value → Value → String → Result PolicyError Policy
unfolding check_threshold
construct a b name = do
  x ← check_threshold approve_threshold a
  y ← check_threshold block_threshold b
  raise_if (lt (value_of y) (value_of x)) out_of_order
  ok (record { approve_at = x; block_at = y; name = name })

-- decisions[test(scores)] = d
pub assign : (Float → Bool) → Decision → List Float → List Decision → List Decision
assign test d [] ds = ds
assign test d (s ∷ scores) [] = []
assign test d (s ∷ scores) (e ∷ ds) = (if test s then d else e) ∷ assign test d scores ds

-- np.full(scores.shape, d)
pub full : Decision → List Float → List Decision
full d scores = map (λ _. d) scores

-- `DecisionPolicy.decide`
unfoldable pub decide : Policy → List Float → Result PolicyError (List Decision)
unfolding assign full
decide p scores =
    if any is_nan scores
    then err nan_score
    else ok (
        assign (λ s. le (value_of p.block_at) s) block scores
          (assign (λ s. lt s (value_of p.approve_at)) approve scores (full review scores)))

-- The dict of `to_dict`; `from_dict` reads a missing name as "unnamed_policy".
pub record PolicyDict : Type 0 where
  pub approve : Value
  pub block_key : Value
  pub name_key : Option String

unfoldable pub to_dict : Policy → PolicyDict
to_dict p = record {
  approve = number p.approve_at;
  block_key = number p.block_at;
  name_key = some p.name;
}

name_or_default : Option String → String
name_or_default none = "unnamed_policy"
name_or_default (some s) = s

unfoldable pub from_dict : PolicyDict → Result PolicyError Policy
unfolding name_or_default
from_dict d = construct d.approve d.block_key (name_or_default d.name_key)
