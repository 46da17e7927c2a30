-- ===== src/Engine/Assess.antt =====
-- What the engine computes without its state (src/engine/risk_engine.py): the values of an admitted
-- transaction, and the result for given features. The feature pipeline, the preprocessor and
-- the model are one parameter, `predict`, and so is the explainer. Wall-clock times are left out.
use real_time_risk_fraud_eng.Prelude.{Bool, true, false, String, Option, none, some, List, [], ◌∷◌}
use real_time_risk_fraud_eng.Prelude.Keys.{Dict}
use real_time_risk_fraud_eng.Result.{Result, ok, err, ◌>>=◌, ◌>>◌}
use real_time_risk_fraud_eng.Float.{Float, Arithmetic}
use real_time_risk_fraud_eng.Value.{Value, Number}
use real_time_risk_fraud_eng.Decision.Policy.{Policy, PolicyError, Decision, decide}
use real_time_risk_fraud_eng.State.Entity.{Features}
use real_time_risk_fraud_eng.State.Backend.{StateError}
use real_time_risk_fraud_eng.Engine.Validation.{
  Schema, Columns, Fault, validate, to_float, value_at, expected, numeric_columns,
}

-- The class of an exception of third-party code: RuntimeError, or one that is no RuntimeError.
pub data External : Type 0 where
  a_runtime_error other_class : External

-- What `process_transaction` may raise. `unhashable` is the TypeError of a dict lookup, and
-- `external` stands for whatever the pipeline, the model or the explainer raises, by its class.
pub data EngineError : Type 0 where
  fault : Fault → EngineError
  policy_error : PolicyError → EngineError
  state_error : StateError → EngineError
  unhashable : EngineError
  external : External → EngineError

pub data Explanation (X : Type 0) : Type 0 where
  not_asked no_explainer : Explanation X
  explained : X → Explanation X

-- The dict that is returned, with the entries of `processing_metadata` but its time.
pub record Outcome (X : Type 0) : Type 0 where
  pub transaction_id : Value
  pub risk_score : Float
  pub decision : Decision
  pub explanation : Explanation X
  pub behavioral_features : Features
  pub state_updated : Bool
  pub policy_name : String
  pub approve_at : Number
  pub block_at : Number

-- `K` is the type of the entities as dict keys. `predict` takes the numeric columns, the raw row
-- and the behavioural features to the risk score.
pub record Parts (K X : Type 0) : Type 0 where
  pub schema : Schema
  pub columns : Columns
  pub policy : Policy
  pub key : Value → Option K
  pub predict : List String → Dict String Value → Features → Result External Float
  pub explainer : Option (List String → Dict String Value → Features → Result External X)

-- {k: transaction.get(k) for k in expected}
unfoldable pub raw_row : List String → Dict String Value → Dict String Value
raw_row [] txn = []
raw_row (c ∷ cs) txn = (c, value_at c txn) ∷ raw_row cs txn

unfoldable pub or_raise : {A : Type 0} → EngineError → Option A → Result EngineError A
or_raise e none = err e
or_raise e (some a) = ok a

unfoldable pub from_external : {A : Type 0} → Result External A → Result EngineError A
from_external (ok a) = ok a
from_external (err e) = err (external e)

-- `policy.decide([score])[0]`; the array has one element.
unfoldable pub first_decision : Result PolicyError (List Decision) → Result EngineError Decision
first_decision (err e) = err (policy_error e)
first_decision (ok []) = err (external other_class)
first_decision (ok (d ∷ ds)) = ok d

unfoldable pub faulty : {A : Type 0} → Result Fault A → Result EngineError A
faulty (ok a) = ok a
faulty (err e) = err (fault e)

module _ {K X : Type 0} (A : Arithmetic) (parts : Parts K X) where
  open parts use {schema, columns, policy, key, predict, explainer}

  unfoldable pub explain_with :
      Dict String Value
      → Features
      → Option (List String → Dict String Value → Features → Result External X)
      → Result EngineError (Explanation X)
  unfolding from_external
  explain_with row f none = ok no_explainer
  explain_with row f (some run) = do
    x ← from_external (run (numeric_columns schema) row f)
    ok (explained x)

  -- The explanation is computed only on demand, after the decision.
  unfoldable pub explanation_of :
      Bool → Dict String Value → Features → Result EngineError (Explanation X)
  unfolding explain_with
  explanation_of false row f = ok not_asked
  explanation_of true row f = explain_with row f explainer

  unfoldable pub outcome : Value → Float → Decision → Explanation X → Features → Outcome X
  outcome id score d x f = record {
    transaction_id = id;
    risk_score = score;
    decision = d;
    explanation = x;
    behavioral_features = f;
    state_updated = true;
    policy_name = policy.name;
    approve_at = policy.approve_at;
    block_at = policy.block_at;
  }

  -- Steps 5 to 9: from the features to the result that is packaged. It reads no state.
  unfoldable pub assess : Bool → Dict String Value → Features → Result EngineError (Outcome X)
  unfolding from_external explanation_of outcome
  assess explain txn f = do
    let row = raw_row (expected schema) txn
    score ← from_external (predict (numeric_columns schema) row f)
    d ← first_decision (decide policy (score ∷ []))
    x ← explanation_of explain row f
    ok (outcome (value_at columns.id txn) score d x f)

  -- Validation, and the values that the later steps use: the entity, the time and the amount.
  unfoldable pub admitted : Dict String Value → Result EngineError (K × Float × Float)
  unfolding faulty or_raise
  admitted txn = do
    faulty (validate A schema columns txn)
    k ← or_raise unhashable (key (value_at columns.entity txn))
    now ← faulty (to_float A columns.time (value_at columns.time txn))
    amount ← faulty (to_float A columns.amount (value_at columns.amount txn))
    ok (k, now, amount)
