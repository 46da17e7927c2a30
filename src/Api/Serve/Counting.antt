-- ===== src/Api/Serve/Counting.antt =====
-- Every call is counted as one request, and no prediction is counted as a success or as a failure without
-- an attempt.
use real_time_risk_fraud_eng.Prelude.{
  ℕ, ◌+◌, ◌≡◌, refl, String, Option, none, some, List, [], ◌∷◌, arith, inl, inr, Option-cases,
  Bool-cases, length, eqb,
}
use real_time_risk_fraud_eng.Prelude.Keys.{Dict}
use real_time_risk_fraud_eng.Result.{Result, ok, err}
use real_time_risk_fraud_eng.Float.{Float, Arithmetic}
use real_time_risk_fraud_eng.Value.{Value}
use real_time_risk_fraud_eng.State.Backend.{Backend, StateError, unavailable, bad_key, overflow}
use real_time_risk_fraud_eng.State.Manager.{reset}
use real_time_risk_fraud_eng.Engine.{reset_state, in_state}
use real_time_risk_fraud_eng.Engine.Assess.{Parts}
use real_time_risk_fraud_eng.Monitoring.Metrics.{
  record_request, record_engine_validation_failure, record_request_validation_failure,
  record_engine_not_initialized, record_internal_error, record_redis_lookup,
}
use real_time_risk_fraud_eng.Governance.Registry.{Registry, RegistryError}
use real_time_risk_fraud_eng.Governance.Registry.Summary
use real_time_risk_fraud_eng.Governance.Registry.Summary.{Summary}
use real_time_risk_fraud_eng.Drift.Monitor.{DriftError, Batch, Detectors}
use real_time_risk_fraud_eng.Api.{
  App, ApiError, request_validation, backend_unavailable, runtime_error, unexpected,
  transaction_validation, http_error, get_engine, call_engine, run_on, from_engine, of_engine_error,
  or_error, get_metrics_registry,
}
use real_time_risk_fraud_eng.Api.Predict.{predict, predict_explain}
use real_time_risk_fraud_eng.Api.Operations.{
  health, metadata, dev_reset_state, monitoring_summary, drift_summary, drift_analyze, analyzed,
  from_drift, available, registry_summary, model_governance_summary,
}
use real_time_risk_fraud_eng.Api.Serve.{
  Call, predicting, explaining, checking_health, reading_metadata, resetting, scraping,
  reading_summary, reading_drift, reading_governance, analyzing, endpoint, Body, note, respond,
  handle_error, handle_unexpected_error, passed_through, route, serve, serve_all,
}
use real_time_risk_fraud_eng.Api.Serve.Spare.{
  owed, HasSpare, Holds, Holds-bind, owes_nothing, engine_asked, predict-Holds,
  predict_explain-Holds,
}

state_errors_owe_nothing :
    {X : Type 0} (r : Result StateError X) → owed (from_engine (in_state r)) ≡ 0
unfolding from_engine in_state of_engine_error
state_errors_owe_nothing (ok x) = refl
state_errors_owe_nothing (err unavailable) = refl
state_errors_owe_nothing (err bad_key) = refl
state_errors_owe_nothing (err overflow) = refl

drift_owes_nothing : {X : Type 0} (r : Result DriftError X) → owed (from_drift r) ≡ 0
unfolding from_drift
drift_owes_nothing (ok x) = refl
drift_owes_nothing (err e) = refl

available_owes_nothing : (r : Result RegistryError Summary) → owed (available r) ≡ 0
unfolding available
available_owes_nothing (ok x) = refl
available_owes_nothing (err e) = refl

module _ {S R : Type 0} where
  metrics_read :
      (A : Arithmetic) (t : ℕ) (app : App S R)
      → HasSpare t 0 app
      → Holds t (monitoring_summary A app)
  unfolding monitoring_summary get_metrics_registry or_error
  metrics_read A t app (m, on, total, spare) = rw on (m, refl, total, spare)

  summary-Holds :
      (t : ℕ) (g : Option Registry) (app : App S R)
      → HasSpare t 0 app
      → Holds t (registry_summary g app)
  unfolding registry_summary
  summary-Holds t none app h = h
  summary-Holds t (some r) app h =
      owes_nothing {S = S} {R = R} t (available (Summary.summary r).0) app
        (available_owes_nothing (Summary.summary r).0) h

  analyze-Holds :
      {C : Type 0} (detect : Detectors R C) (t : ℕ) (batch : Batch C) (now : String) (app : App S R)
      → HasSpare t 0 app
      → Holds t (drift_analyze detect batch now app)
  unfolding drift_analyze analyzed
  analyze-Holds detect t batch now app h = elim (Option-cases app.drift) [
    | inl off ↦ rw off h
    | inr ((profile, m), on) ↦ elim (Bool-cases (eqb batch.size 0)) [
      | inl empty ↦ rw (on, empty) h
      | inr full ↦ rw (on, full) (owes_nothing {S = S} {R = R} t _ app (drift_owes_nothing _) h)
    ]
  ]

module _ {K X I S R C : Type 0} (A : Arithmetic) (B : Backend K I S) (parts : Parts K X)
    (fields : Dict String Value → Option (Dict String Value)) (detect : Detectors R C) where
  reset-Holds : (t : ℕ) (app : App S R) → HasSpare t 0 app → Holds t (dev_reset_state A B parts app)
  unfolding dev_reset_state call_engine run_on reset_state
  reset-Holds t app h = elim (Option-cases app.engine) [
    | inl off ↦ rw off h
    | inr (s, on) ↦ rw on (
        owes_nothing {S = S} {R = R} t (from_engine (in_state (reset A B s).0)) app
          (state_errors_owe_nothing (reset A B s).0) h)
  ]

  route-Holds :
      (t : ℕ) (call : Call C) (app : App S R)
      → HasSpare t 0 app
      → Holds t (route A B parts fields detect call app)
  unfolding route health drift_summary model_governance_summary metadata
  route-Holds t (predicting body ms) app h =
      Holds-bind t (predict A B parts fields body ms app) _
        (predict-Holds A B parts fields t body ms app h) (λ r app' h'. h')
  route-Holds t (explaining body ms explain_ms) app h =
      Holds-bind t (predict_explain A B parts fields body ms explain_ms app) _
        (predict_explain-Holds A B parts fields t body ms explain_ms app h) (λ r app' h'. h')
  route-Holds t checking_health app h = h
  route-Holds t reading_metadata app h =
      Holds-bind t (metadata A B parts app) _
        (Holds-bind t (get_engine app) _ (engine_asked A B parts fields t app h) (λ r app' h'. h'))
        (λ r app' h'. h')
  route-Holds t resetting app h =
      Holds-bind t (dev_reset_state A B parts app) _ (reset-Holds t app h) (λ r app' h'. h')
  route-Holds t scraping app h =
      Holds-bind t (monitoring_summary A app) _ (metrics_read A t app h) (λ r app' h'. h')
  route-Holds t reading_summary app h =
      Holds-bind t (monitoring_summary A app) _ (metrics_read A t app h) (λ r app' h'. h')
  route-Holds t reading_drift app h = h
  route-Holds t reading_governance app h =
      Holds-bind t (registry_summary app.registry app) _ (summary-Holds t app.registry app h)
        (λ r app' h'. h')
  route-Holds t (analyzing batch now) app h =
      Holds-bind t (drift_analyze detect batch now app) _ (analyze-Holds detect t batch now app h)
        (λ r app' h'. h')

  -- The response is counted once, and what the route left due is settled by its handler.
  respond_counts :
      (t : ℕ) (path : String) (ms : Float) (k : Result ApiError (Body X) × App S R)
      → Holds t k
      → HasSpare (t + 1) 0 (respond A path ms k).1
  unfolding respond handle_error handle_unexpected_error passed_through note record_request
      record_engine_validation_failure record_request_validation_failure
      record_engine_not_initialized record_internal_error record_redis_lookup
  respond_counts t path ms (ok b, app) (m, on, total, spare) =
      rw on (_, refl, omega (arith, total), omega (arith, spare))
  respond_counts t path ms (err request_validation, app) (m, on, total, spare) =
      rw on (_, refl, omega (arith, total), omega (arith, spare))
  respond_counts t path ms (err backend_unavailable, app) (m, on, total, spare) =
      rw on (_, refl, omega (arith, total), omega (arith, spare))
  respond_counts t path ms (err runtime_error, app) (m, on, total, spare) =
      rw on (_, refl, omega (arith, total), omega (arith, spare))
  respond_counts t path ms (err unexpected, app) (m, on, total, spare) =
      rw on (_, refl, omega (arith, total), omega (arith, spare))
  respond_counts t path ms (err (transaction_validation e), app) (m, on, total, spare) =
      rw on (_, refl, omega (arith, total), omega (arith, spare))
  respond_counts t path ms (err (http_error code), app) (m, on, total, spare) =
      rw on (_, refl, omega (arith, total), omega (arith, spare))

  serve_counts :
      (t : ℕ) (call : Call C × Float) (app : App S R)
      → HasSpare t 0 app
      → HasSpare (t + 1) 0 (serve A B parts fields detect call app).1
  unfolding serve
  serve_counts t (call, ms) app h =
      respond_counts t (endpoint call) ms (route A B parts fields detect call app)
        (route-Holds t call app h)

  -- With metrics, after any sequence of calls, failed ones included, there are as many responses as calls,
  -- as many requests more are counted, and the successful and the failed predictions together do not
  -- exceed the attempts if they did not before.
  pub serve_all_counts :
      (t : ℕ) (calls : List (Call C × Float)) (app : App S R)
      → HasSpare t 0 app
      → (length (serve_all A B parts fields detect calls app).0 ≡ length calls)
        × HasSpare (t + length calls) 0 (serve_all A B parts fields detect calls app).1
  unfolding serve_all
  serve_all_counts t [] app (m, on, total, spare) = (refl, (m, on, omega (arith, total), spare))
  serve_all_counts t (c ∷ cs) app h =
      let app' = (serve A B parts fields detect c app).1 in
      let ih = serve_all_counts (t + 1) cs app' (serve_counts t c app h) in
      let (m, on, total, spare) = ih.1 in
      (omega (arith, ih.0), (m, on, omega (arith, total), spare))
