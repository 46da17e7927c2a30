-- ===== src/Engine/Tests.antt =====
-- Calls of the engine over the in-memory backend, with a model that gives 0.75 to everything.
use real_time_risk_fraud_eng.Prelude.{
  ◌≡◌, ◌⊎◌, refl, Option, none, some, ◌∷◌, [], String, true, false, keep, ◌∙◌,
}
use real_time_risk_fraud_eng.Prelude.Int.{pos}
use real_time_risk_fraud_eng.Prelude.Keys.{Dict, lookup, str_key}
use real_time_risk_fraud_eng.Result.{ok, err}
use real_time_risk_fraud_eng.Float.{
  Float, exact, is_nan, is_finite, lt, zero_float, one_float, scale, le, dyadic,
}
use real_time_risk_fraud_eng.Float.Exact.{exact_arithmetic}
use real_time_risk_fraud_eng.Value.{Value, null, other, bool, number, str, float, value_of}
use real_time_risk_fraud_eng.Decision.Policy.{block, decide}
use real_time_risk_fraud_eng.Decision.Policy.Tests.{
  sample_policy, sample_policy-IsValid, three_quarters,
}
use real_time_risk_fraud_eng.Decision.Policy.Classify.{classify}
use real_time_risk_fraud_eng.State.Entity.{EntityState, Features, features_of, updated, read_prune}
use real_time_risk_fraud_eng.State.Backend.{in_memory}
use real_time_risk_fraud_eng.State.Backend.Contract.{in_memory-IsStore}
use real_time_risk_fraud_eng.State.Manager.Trace.{or_new}
use real_time_risk_fraud_eng.State.Manager.Simulation.{LeavesAt}
use real_time_risk_fraud_eng.Engine.{process_transaction}
use real_time_risk_fraud_eng.Engine.Validation.{
  Schema, validate, to_float, finite_number, value_at, has_key, expected, is_null, has_label,
  invalid,
}
use real_time_risk_fraud_eng.Engine.Assess.{
  fault, external, a_runtime_error, Outcome, Parts, assess, admitted, not_asked, explained, raw_row,
  first_decision,
}
use real_time_risk_fraud_eng.Engine.Answers.{assess-classify}
use real_time_risk_fraud_eng.Engine.Atomicity.{
  answer, process_transaction-eq-answer, process_transaction_failed, process_transaction_records,
}

abbrev schema : Schema
schema =
    record { name = "amount"; used = true; numeric = true }
    ∷ record { name = "card"; used = true; numeric = false }
    ∷ record { name = "id"; used = false; numeric = false }
    ∷ record { name = "time"; used = true; numeric = true }
    ∷ []

abbrev key_of : Value → Option String
key_of null = none
key_of other = none
key_of (bool b) = none
key_of (number n) = none
key_of (str s) = some s

abbrev parts : Parts String (Unit {0})
parts = record {
  schema = schema;
  columns = record { entity = "card"; time = "time"; id = "id"; amount = "amount" };
  policy = sample_policy;
  key = key_of;
  predict = λ columns row f. ok three_quarters;
  explainer = some (λ columns row f. ok tt);
}

-- The same parts with a model that raises.
abbrev broken : Parts String (Unit {0})
broken = record parts { predict = λ columns row f. err a_runtime_error }

abbrev hundred : Float
hundred = exact (pos 100)

abbrev five : Float
five = exact (pos 5)

abbrev txn : Dict String Value
txn =
    ("id", str "t1")
    ∷ ("card", str "c1")
    ∷ ("time", number (float hundred))
    ∷ ("amount", number (float five))
    ∷ []

abbrev labelled : Dict String Value
labelled = ("isFraud", number (float one_float)) ∷ txn

abbrev nobody : Dict String EntityState
nobody = []

abbrev found : Dict String EntityState → String → Option EntityState
found d k = lookup k d

process_transaction-eq-answer_example :
    (process_transaction exact_arithmetic in_memory parts true txn nobody).0
    ≡ answer exact_arithmetic in_memory found in_memory-IsStore parts true txn nobody
process_transaction-eq-answer_example =
    process_transaction-eq-answer exact_arithmetic in_memory found in_memory-IsStore parts true txn
      nobody

labelled_rejected : admitted exact_arithmetic parts labelled ≡ err (fault (invalid has_label))
unfolding admitted validate has_key lookup
labelled_rejected = refl

txn-admitted : admitted exact_arithmetic parts txn ≡ ok ("c1", hundred, five)
unfolding admitted validate has_key lookup expected finite_number to_float value_at is_null
    is_finite lt zero_float exact keep scale
txn-admitted = refl

abbrev features : Features
features = features_of exact_arithmetic hundred five none

abbrev answered : Outcome (Unit {0})
answered = record {
  transaction_id = str "t1";
  risk_score = three_quarters;
  decision = block;
  explanation = not_asked;
  behavioral_features = features;
  state_updated = true;
  policy_name = "sample";
  approve_at = sample_policy.approve_at;
  block_at = sample_policy.block_at;
}

assess_done : assess exact_arithmetic parts false txn features ≡ ok answered
unfolding assess raw_row first_decision decide is_nan le lt dyadic scale value_at lookup value_of
assess_done = refl

process_done :
    (process_transaction exact_arithmetic in_memory parts false txn nobody).0 ≡ ok answered
unfolding lookup
process_done =
    process_transaction-eq-answer exact_arithmetic in_memory found in_memory-IsStore parts false txn
      nobody
    ∙ rw txn-admitted assess_done

broken-admitted : admitted exact_arithmetic broken txn ≡ ok ("c1", hundred, five)
unfolding admitted
broken-admitted = txn-admitted

process_broken :
    (process_transaction exact_arithmetic in_memory broken false txn nobody).0
    ≡ err (external a_runtime_error)
unfolding assess raw_row
process_broken =
    process_transaction-eq-answer exact_arithmetic in_memory found in_memory-IsStore broken false
      txn nobody
    ∙ rw broken-admitted refl

process_transaction_failed_example :
    LeavesAt exact_arithmetic in_memory found in_memory-IsStore hundred nobody
      (process_transaction exact_arithmetic in_memory broken false txn nobody).1
      "c1"
process_transaction_failed_example =
    process_transaction_failed exact_arithmetic in_memory found in_memory-IsStore broken false txn
      nobody "c1" hundred five broken-admitted (external a_runtime_error) process_broken "c1"

process_transaction_records_example :
    let s' = (process_transaction exact_arithmetic in_memory parts false txn nobody).1 in
    (found s' "c1" ≡ some (updated exact_arithmetic hundred five (or_new (found nobody "c1"))))
    ⊎ (found s' "c1"
        ≡ some (
            updated exact_arithmetic hundred five
              (read_prune exact_arithmetic hundred (or_new (found nobody "c1")))))
process_transaction_records_example =
    process_transaction_records exact_arithmetic in_memory found in_memory-IsStore parts false txn
      nobody "c1" hundred five txn-admitted answered process_done

assess-classify_example :
    (is_nan answered.risk_score ≡ false)
    × (answered.decision ≡ classify parts.policy answered.risk_score)
    × (answered.behavioral_features ≡ features)
    × (answered.policy_name ≡ parts.policy.name)
    × (answered.state_updated ≡ true)
assess-classify_example =
    assess-classify exact_arithmetic parts false txn features answered sample_policy-IsValid
      assess_done

abbrev with_reason : Outcome (Unit {0})
with_reason = record answered { explanation = explained tt }

assess_asked : assess exact_arithmetic parts true txn features ≡ ok with_reason
unfolding assess raw_row first_decision decide is_nan le lt dyadic scale value_at lookup value_of
assess_asked = refl
