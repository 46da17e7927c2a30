-- ===== src/Api/Predict.antt =====
-- `/predict` and `/predict/explain` (src/api/main.py). `ms` and `explain_ms` are the wall-clock times
-- that the engine reports.
pub mod Interference
pub mod Store
pub mod Explaining
use real_time_risk_fraud_eng.Prelude.{
  Bool, true, false, not, ◌&&◌, String, Option, none, some, List,
}
use real_time_risk_fraud_eng.Prelude.Keys.{Dict}
use real_time_risk_fraud_eng.Result.{Result, ok, err}
use real_time_risk_fraud_eng.Exec.{Exec, pure, raise, lift, modify, ◌>>=◌, ◌>>◌}
use real_time_risk_fraud_eng.Float.{Float, le, zero_float, one_float, Arithmetic}
use real_time_risk_fraud_eng.Value.{Value}
use real_time_risk_fraud_eng.Decision.Policy.{Decision, approve, review, block}
use real_time_risk_fraud_eng.State.Backend.{Backend}
use real_time_risk_fraud_eng.Engine.{process_transaction}
use real_time_risk_fraud_eng.Engine.Validation.{Fault, expected}
use real_time_risk_fraud_eng.Engine.Assess.{
  Outcome, Parts, Explanation, not_asked, no_explainer, explained,
}
use real_time_risk_fraud_eng.Monitoring.Metrics.{
  record_prediction_attempt, record_prediction_success, record_explanation,
}
use real_time_risk_fraud_eng.Monitoring.DataQuality.{extract_transaction_amount}
use real_time_risk_fraud_eng.Api.{
  App, ApiError, unexpected, http_error, of_fault, get_engine, call_engine, observe,
}
use real_time_risk_fraud_eng.Api.Requests.{parse_request, build_full_transaction_dict}

unfoldable pub decision_text : Decision → String
decision_text approve = "APPROVE"
decision_text review = "REVIEW"
decision_text block = "BLOCK"

-- The version of the model and the status are constants, and the time is left out.
pub record PredictResponse : Type 0 where
  pub transaction_id : Value
  pub risk_score : Float
  pub decision : Decision
  pub policy_version : String

pub record ExplainResponse (X : Type 0) : Type 0 where
  pub transaction_id : Value
  pub risk_score : Float
  pub decision : Decision
  pub policy_version : String
  pub explanation : Explanation X

unfoldable pub amount_of : Result Fault (Option Float) → Result ApiError (Option Float)
unfolding of_fault
amount_of (ok x) = ok x
amount_of (err e) = err (of_fault e)

-- Pydantic refuses a response with a score that is not in [0, 1].
unfoldable pub predict_response : {X : Type 0} → Outcome X → Result ApiError PredictResponse
predict_response o = elim (le zero_float o.risk_score && le o.risk_score one_float) [
  | true ↦ ok (record {
    transaction_id = o.transaction_id;
    risk_score = o.risk_score;
    decision = o.decision;
    policy_version = o.policy_name;
  })
  | false ↦ err unexpected
]

unfoldable pub explain_response : {X : Type 0} → Outcome X → ExplainResponse X
explain_response o = record {
  transaction_id = o.transaction_id;
  risk_score = o.risk_score;
  decision = o.decision;
  policy_version = o.policy_name;
  explanation = o.explanation;
}

module _ {K X I S R : Type 0} (A : Arithmetic) (B : Backend K I S) (parts : Parts K X)
    (fields : Dict String Value → Option (Dict String Value)) where
  -- The amount is read only where there are metrics, before the method is called.
  unfoldable pub amount_for : Dict String Value → App S R → Result ApiError (Option Float)
  unfolding amount_of
  amount_for txn app = elim app.metrics [
    | none ↦ ok none
    | some m ↦ amount_of (extract_transaction_amount A "TransactionAmt" txn)
  ]

  -- `metrics.record_prediction_success(…)` for what the engine returned
  unfoldable pub record_success :
      Dict String Value → Float → Outcome X → Exec ApiError (App S R) (Outcome X)
  unfolding amount_for
  record_success txn ms o = do
    amount ← λ app. (amount_for txn app, app)
    observe (record_prediction_success A (decision_text o.decision) o.risk_score ms amount)
    pure o

  -- What both routes do up to the recording of the success.
  unfoldable pub score_request :
      Bool → Dict String Value → Float → Exec ApiError (App S R) (Outcome X)
  score_request explain request ms = do
    observe (modify (record_prediction_attempt A))
    let txn = build_full_transaction_dict (expected parts.schema) request
    o ← call_engine (process_transaction A B parts explain txn)
    record_success txn ms o

  -- `predict`: the engine is asked for before the body is checked.
  unfoldable pub predict : Dict String Value → Float → Exec ApiError (App S R) PredictResponse
  predict body ms = do
    get_engine
    request ← lift (parse_request fields body)
    o ← score_request false request ms
    lift (predict_response o)

  unfoldable pub explained_in : Explanation X → Float → Exec ApiError (App S R) (Unit {0})
  explained_in not_asked ms = pure tt
  explained_in no_explainer ms = raise (http_error 503)
  explained_in (explained x) ms = observe (modify (record_explanation A ms))

  -- `predict_explain`: without an explainer it raises after everything else is done.
  unfoldable pub predict_explain :
      Dict String Value → Float → Float → Exec ApiError (App S R) (ExplainResponse X)
  unfolding explained_in
  predict_explain body ms explain_ms = do
    get_engine
    request ← lift (parse_request fields body)
    o ← score_request true request ms
    explained_in o.explanation explain_ms
    pure (explain_response o)
