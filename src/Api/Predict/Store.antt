-- ===== src/Api/Predict/Store.antt =====
-- What a call of `/predict` or `/predict/explain` does to the engine's store, and what it answers.
use real_time_risk_fraud_eng.Prelude.{◌≡◌, refl, ap, Bool, String, Option, none, some, inl, inr}
use real_time_risk_fraud_eng.Prelude.Keys.{Dict}
use real_time_risk_fraud_eng.Result.{Result, ok, err, Result-cases}
use real_time_risk_fraud_eng.Exec.{pure, continue}
use real_time_risk_fraud_eng.Float.{Float, Arithmetic}
use real_time_risk_fraud_eng.Value.{Value}
use real_time_risk_fraud_eng.State.Backend.{Backend}
use real_time_risk_fraud_eng.Engine.{process_transaction}
use real_time_risk_fraud_eng.Engine.Validation.{expected}
use real_time_risk_fraud_eng.Engine.Assess.{EngineError, Outcome, Parts}
use real_time_risk_fraud_eng.Monitoring.Metrics.{
  MetricsRegistry, bucket_label, record_prediction_success,
}
use real_time_risk_fraud_eng.Monitoring.DataQuality.{extract_transaction_amount}
use real_time_risk_fraud_eng.Drift.Monitor.{Profile, Monitor}
use real_time_risk_fraud_eng.Governance.Registry.{Registry}
use real_time_risk_fraud_eng.Api.{
  App, ApiError, observe, call_engine, recorded_in, run_on, from_engine, of_engine_error,
  from_metrics,
}
use real_time_risk_fraud_eng.Api.Requests.{build_full_transaction_dict}
use real_time_risk_fraud_eng.Api.Predict.{amount_of, record_success, score_request}

-- What follows a recording only passes a value on.
passed : {E T Y Z : Type 0} (r : Result E Y) (z : Z) (t : T) → (continue r (λ _. pure z) t).1 ≡ t
passed (ok y) z t = refl
passed (err e) z t = refl

module _ {K X I S : Type 0} (A : Arithmetic) (B : Backend K I S) (parts : Parts K X) where
  -- The engine's call for the expanded request.
  abbrev pub engine_run : Bool → Dict String Value → S → Result EngineError (Outcome X) × S
  engine_run explain request s =
      process_transaction A B parts explain
        (build_full_transaction_dict (expected parts.schema) request) s

module _ {K X I S R : Type 0} (A : Arithmetic) (B : Backend K I S) (parts : Parts K X)
    (fields : Dict String Value → Option (Dict String Value)) where
  module _ (explain : Bool) (request : Dict String Value) (ms : Float) (s : S)
      (d : Option (Profile R × Monitor)) (g : Option Registry) where
    abbrev pub app_with : Option MetricsRegistry → App S R
    app_with m = record { engine = some s; metrics = m; drift = d; registry = g }

    abbrev pub run : Result EngineError (Outcome X) × S
    run = engine_run A B parts explain request s

    abbrev txn : Dict String Value
    txn = build_full_transaction_dict (expected parts.schema) request

    record_success_engine :
        (o : Outcome X) (m : Option MetricsRegistry) (t : S)
        → (record_success A B parts fields txn ms o
            (record (app_with m) { engine = some t })).1.engine
          ≡ some t
    unfolding record_success observe recorded_in
    record_success_engine o none t = refl
    record_success_engine o (some m) t =
        elim (Result-cases (amount_of (extract_transaction_amount A "TransactionAmt" txn))) [
          | inl (amount, e) ↦ rw e (ap (λ (k : App S R). k.engine) (passed (from_metrics _) o _))
          | inr (x, e) ↦ rw e refl
        ]

    unfoldable pub scored : Option MetricsRegistry → Result ApiError (Outcome X) × App S R
    scored m = score_request A B parts fields explain request ms (app_with m)

    -- Whatever is observed, the engine is left as its own call leaves it.
    pub score_request_engine : (m : Option MetricsRegistry) → (scored m).1.engine ≡ some run.1
    unfolding scored score_request observe recorded_in call_engine run_on from_engine
    score_request_engine none = elim (Result-cases run.0) [
      | inl (o, e) ↦ rw e (record_success_engine o none run.1)
      | inr (x, e) ↦ rw e refl
    ]
    score_request_engine (some m) = elim (Result-cases run.0) [
      | inl (o, e) ↦ rw e (record_success_engine o (some _) run.1)
      | inr (x, e) ↦ rw e refl
    ]

    -- What the engine raises is what the routes raise, also where there are metrics.
    pub score_request_err :
        (x : EngineError) (m : Option MetricsRegistry)
        → run.0 ≡ err x
        → (scored m).0 ≡ err (of_engine_error x)
    unfolding scored score_request observe recorded_in call_engine run_on from_engine
    score_request_err x none e = rw e refl
    score_request_err x (some m) e = rw e refl

    pub score_request_off : (o : Outcome X) → run.0 ≡ ok o → (scored none).0 ≡ ok o
    unfolding scored score_request observe recorded_in call_engine run_on from_engine record_success
    score_request_off o e = rw e refl

    pub score_request_on :
        (o : Outcome X) (m : MetricsRegistry) (l : String) (a : Option Float)
        → run.0 ≡ ok o
        → bucket_label A o.risk_score ≡ ok l
        → amount_of (extract_transaction_amount A "TransactionAmt" txn) ≡ ok a
        → (scored (some m)).0 ≡ ok o
    unfolding scored score_request observe recorded_in call_engine run_on from_engine record_success
        record_prediction_success from_metrics
    score_request_on o m l a e bucket amount = rw (e, amount, bucket) refl
