-- ===== src/Api/Serve.antt =====
-- From a call to its response: the exception handlers (src/api/main.py) and `MetricsMiddleware`
-- (src/monitoring/middleware.py) around the routes. Starlette picks the handler of the most specific class;
-- the handler of `Exception` runs outside of the middleware, all others inside.
pub mod Spare
pub mod Counting
pub mod Answers
use real_time_risk_fraud_eng.Prelude.{ℕ, Bool, true, String, Option, none, some, List, [], ◌∷◌}
use real_time_risk_fraud_eng.Prelude.Keys.{Dict}
use real_time_risk_fraud_eng.Result.{Result, ok, err}
use real_time_risk_fraud_eng.Exec.{Exec, pure, raise, lift, modify, ◌>>=◌, ◌>>◌}
use real_time_risk_fraud_eng.Float.{Float, zero_float, Arithmetic}
use real_time_risk_fraud_eng.Value.{Value}
use real_time_risk_fraud_eng.State.Backend.{Backend}
use real_time_risk_fraud_eng.Engine.Assess.{Parts}
use real_time_risk_fraud_eng.Monitoring.Metrics.{
  MetricsRegistry, record_request, record_engine_validation_failure,
  record_request_validation_failure, record_engine_not_initialized, record_internal_error,
  record_redis_lookup,
}
use real_time_risk_fraud_eng.Monitoring.Metrics.Snapshot.{Snapshot}
use real_time_risk_fraud_eng.Drift.Report.{DriftReport}
use real_time_risk_fraud_eng.Drift.Monitor.{Batch, Warning, Detectors, Summary as MonitorSummary}
use real_time_risk_fraud_eng.Governance.Registry.Summary.{Summary}
use real_time_risk_fraud_eng.Api.{
  App, ApiError, request_validation, backend_unavailable, runtime_error, unexpected,
  transaction_validation, http_error,
}
use real_time_risk_fraud_eng.Api.Predict.{
  PredictResponse, ExplainResponse, predict, predict_explain,
}
use real_time_risk_fraud_eng.Api.Operations.{
  HealthResponse, MetadataResponse, health, metadata, dev_reset_state, monitoring_summary,
  drift_summary, drift_analyze, model_governance_summary,
}

-- What a client sends, with the wall-clock times of the call.
pub data Call (C : Type 0) : Type 0 where
  predicting : Dict String Value → Float → Call C
  explaining : Dict String Value → Float → Float → Call C
  checking_health reading_metadata resetting scraping reading_summary : Call C
  reading_drift reading_governance : Call C
  analyzing : Batch C → String → Call C

pub data Body (X : Type 0) : Type 0 where
  predicted : PredictResponse → Body X
  explanation : ExplainResponse X → Body X
  health_status : HealthResponse → Body X
  metadata_body : MetadataResponse → Body X
  state_reset : Body X
  snapshot_body : Snapshot → Body X
  drift_status : Option MonitorSummary → Body X
  drift_report : DriftReport Warning → Body X
  governance_status : Option Summary → Body X
  failure : String → Body X

pub record Response (X : Type 0) : Type 0 where
  pub status_code : ℕ
  pub body : Body X

unfoldable pub endpoint : {C : Type 0} → Call C → String
endpoint (predicting body ms) = "/predict"
endpoint (explaining body ms explain_ms) = "/predict/explain"
endpoint checking_health = "/health"
endpoint reading_metadata = "/metadata"
endpoint resetting = "/dev/reset-state"
endpoint scraping = "/metrics"
endpoint reading_summary = "/monitoring/summary"
endpoint reading_drift = "/drift/summary"
endpoint reading_governance = "/model-governance/summary"
endpoint (analyzing batch now) = "/drift/analyze"

unfoldable pub failed : {X : Type 0} → ℕ → String → Response X
failed code text = record { status_code = code; body = failure text }

module _ {S R : Type 0} where
  -- `try: deps.get_metrics_registry().… except RuntimeError: pass`
  unfoldable pub note : (MetricsRegistry → MetricsRegistry) → App S R → App S R
  note f app = record app { metrics = elim app.metrics [ none ↦ none | some m ↦ some (f m) ] }

  module _ {X : Type 0} (A : Arithmetic) where
    -- `handle_unexpected_error`
    unfoldable pub handle_unexpected_error : App S R → Response X × App S R
    unfolding failed
    handle_unexpected_error app = (failed 500 "internal_error", note (record_internal_error A) app)

    -- The other handlers: `handle_validation_error`, `handle_request_validation_error`,
    -- `handle_runtime_error` and `handle_state_backend_unavailable`, and Starlette's for an
    -- HTTPException.
    unfoldable pub handle_error : ApiError → App S R → Response X × App S R
    unfolding failed handle_unexpected_error
    handle_error (transaction_validation e) app =
        (failed 422 "invalid_transaction", note (record_engine_validation_failure A) app)
    handle_error request_validation app =
        (failed 422 "request_validation", note (record_request_validation_failure A) app)
    handle_error runtime_error app =
        (failed 503 "engine_not_initialized", note (record_engine_not_initialized A) app)
    handle_error backend_unavailable app =
        (failed 503 "state_backend_unavailable", note (record_redis_lookup A zero_float true) app)
    handle_error (http_error code) app = (failed code "http_error", app)
    handle_error unexpected app = handle_unexpected_error app

    -- `dispatch` of the middleware, around a response that was made inside of it
    unfoldable pub passed_through : String → Float → Response X × App S R → Response X × App S R
    passed_through path ms (response, app) =
        (response, note (record_request A path response.status_code ms) app)

    -- What the client gets for what a route returned or raised.
    unfoldable pub respond :
        String → Float → Result ApiError (Body X) × App S R → Response X × App S R
    unfolding handle_error handle_unexpected_error passed_through
    respond path ms (ok b, app) =
        passed_through path ms (record { status_code = 200; body = b }, app)
    respond path ms (err unexpected, app) =
        handle_unexpected_error (note (record_request A path 500 ms) app)
    respond path ms (err e, app) = passed_through path ms (handle_error e app)

module _ {K X I S R C : Type 0} (A : Arithmetic) (B : Backend K I S) (parts : Parts K X)
    (fields : Dict String Value → Option (Dict String Value)) (detect : Detectors R C) where
  -- The route of a call.
  unfoldable pub route : Call C → Exec ApiError (App S R) (Body X)
  route (predicting body ms) = do r ← predict A B parts fields body ms; pure (predicted r)
  route (explaining body ms explain_ms) = do
    r ← predict_explain A B parts fields body ms explain_ms
    pure (explanation r)
  route checking_health = do r ← health; pure (health_status r)
  route reading_metadata = do r ← metadata A B parts; pure (metadata_body r)
  route resetting = do dev_reset_state A B parts; pure state_reset
  route scraping = do r ← monitoring_summary A; pure (snapshot_body r)
  route reading_summary = do r ← monitoring_summary A; pure (snapshot_body r)
  route reading_drift = do r ← drift_summary; pure (drift_status r)
  route reading_governance = do r ← model_governance_summary; pure (governance_status r)
  route (analyzing batch now) = do r ← drift_analyze detect batch now; pure (drift_report r)

  -- One call with its end-to-end time, and a sequence of them.
  unfoldable pub serve : Call C × Float → App S R → Response X × App S R
  unfolding endpoint
  serve (call, ms) app = respond A (endpoint call) ms (route call app)

  unfoldable pub serve_all : List (Call C × Float) → App S R → List (Response X) × App S R
  serve_all [] app = ([], app)
  serve_all (c ∷ cs) app =
      let (r, app') = serve c app in let (rs, end) = serve_all cs app' in (r ∷ rs, end)
