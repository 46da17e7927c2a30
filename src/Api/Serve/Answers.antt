-- ===== src/Api/Serve/Answers.antt =====
-- The calls read the governance registry, and a refused prediction leaves the engine as it was.
use real_time_risk_fraud_eng.Prelude.{
  none, ap, ◌∙◌, sym, ◌+◌, ◌≡◌, refl, Bool, true, false, String, Option, some, List, [], ◌∷◌, inl,
  inr, ◌⊎◌, Option-cases, Bool-cases, eqb,
}
use real_time_risk_fraud_eng.Prelude.Keys.{Dict}
use real_time_risk_fraud_eng.Result.{Result, ok, err}
use real_time_risk_fraud_eng.Exec.{Exec, continue, modify}
use real_time_risk_fraud_eng.Float.{Float, Arithmetic}
use real_time_risk_fraud_eng.Value.{Value}
use real_time_risk_fraud_eng.State.Backend.{Backend}
use real_time_risk_fraud_eng.Engine.{process_transaction}
use real_time_risk_fraud_eng.Engine.Validation.{ValidationError, invalid, expected}
use real_time_risk_fraud_eng.Engine.Assess.{
  admitted, fault, EngineError, Parts, Explanation, not_asked, no_explainer, explained,
}
use real_time_risk_fraud_eng.Monitoring.Metrics.{
  MetricsRegistry, MetricsError, record_request, record_engine_validation_failure,
  record_request_validation_failure, record_prediction_attempt, record_prediction_success,
}
use real_time_risk_fraud_eng.Governance.Registry.{Registry}
use real_time_risk_fraud_eng.Drift.Monitor.{Profile, Monitor, Batch, Detectors}
use real_time_risk_fraud_eng.Api.{
  App, ApiError, request_validation, backend_unavailable, runtime_error, unexpected,
  transaction_validation, http_error, get_engine, call_engine, run_on, observe, recorded_in,
  from_engine, of_engine_error, of_fault, or_error, get_metrics_registry,
}
use real_time_risk_fraud_eng.Api.Requests.{parse_request, build_full_transaction_dict}
use real_time_risk_fraud_eng.Api.Predict.{
  decision_text, amount_for, record_success, score_request, predict, predict_explain, explained_in,
}
use real_time_risk_fraud_eng.Governance.Registry.Summary.{summary_keeps}
use real_time_risk_fraud_eng.Api.Operations.{
  health, metadata, dev_reset_state, monitoring_summary, drift_summary, drift_analyze, analyzed,
  registry_summary, model_governance_summary,
}
use real_time_risk_fraud_eng.Api.Serve.{
  failed, Call, predicting, explaining, checking_health, reading_metadata, resetting, scraping,
  reading_summary, reading_drift, reading_governance, analyzing, endpoint, Body, note, respond,
  handle_error, handle_unexpected_error, passed_through, route, serve, serve_all,
}

module _ {S R : Type 0} where
  -- The governance registry is still `g`.
  abbrev Keeps : {X : Type 0} → Option Registry → Result ApiError X × App S R → Type 0
  Keeps g k = k.1.registry ≡ g

  Keeps-bind :
      {X Y : Type 0} (g : Option Registry) (k : Result ApiError X × App S R)
      (f : X → Exec ApiError (App S R) Y)
      → Keeps g k
      → ((x : X) (app : App S R) → app.registry ≡ g → Keeps g (f x app))
      → Keeps g (continue k.0 f k.1)
  Keeps-bind g (ok x, app) f h next = next x app h
  Keeps-bind g (err e, app) f h next = h

  observe-Keeps :
      (g : Option Registry) (m : Exec MetricsError MetricsRegistry (Unit {0})) (app : App S R)
      → app.registry ≡ g
      → Keeps g (observe m app)
  unfolding observe recorded_in
  observe-Keeps g m app h = elim (Option-cases app.metrics) [
    | inl off ↦ rw off h
    | inr (r, on) ↦ rw on h
  ]

  call_engine-Keeps :
      {X : Type 0} (g : Option Registry) (m : Exec EngineError S X) (app : App S R)
      → app.registry ≡ g
      → Keeps g (call_engine m app)
  unfolding call_engine run_on
  call_engine-Keeps g m app h = elim (Option-cases app.engine) [
    | inl off ↦ rw off h
    | inr (s, on) ↦ rw on h
  ]

  analyze-Keeps :
      {C : Type 0} (detect : Detectors R C) (g : Option Registry) (batch : Batch C) (now : String)
      (app : App S R)
      → app.registry ≡ g
      → Keeps g (drift_analyze detect batch now app)
  unfolding drift_analyze analyzed
  analyze-Keeps detect g batch now app h = elim (Option-cases app.drift) [
    | inl off ↦ rw off h
    | inr ((profile, m), on) ↦ elim (Bool-cases (eqb batch.size 0)) [
      | inl empty ↦ rw (on, empty) h
      | inr full ↦ rw (on, full) h
    ]
  ]

module _ {K X I S R C : Type 0} (A : Arithmetic) (B : Backend K I S) (parts : Parts K X)
    (fields : Dict String Value → Option (Dict String Value)) (detect : Detectors R C)
    (g : Option Registry) where
  score_request-Keeps :
      (explain : Bool) (request : Dict String Value) (ms : Float) (app : App S R)
      → app.registry ≡ g
      → Keeps g (score_request A B parts fields explain request ms app)
  unfolding score_request record_success
  score_request-Keeps explain request ms app h =
      let txn = build_full_transaction_dict (expected parts.schema) request in
      Keeps-bind g (observe (modify (record_prediction_attempt A)) app) _ (observe-Keeps g _ app h)
        (λ u app1 h1.
          Keeps-bind g (call_engine (process_transaction A B parts explain txn) app1) _
            (call_engine-Keeps g _ app1 h1)
            (λ o app2 h2.
              Keeps-bind g (amount_for A B parts fields txn app2, app2) _ h2
                (λ a app3 h3.
                  Keeps-bind g
                    (observe
                      (record_prediction_success A (decision_text o.decision) o.risk_score ms a)
                      app3)
                    _ (observe-Keeps g _ app3 h3) (λ u app4 h4. h4))))

  explained_in-Keeps :
      (x : Explanation X) (ms : Float) (app : App S R)
      → app.registry ≡ g
      → Keeps g (explained_in A B parts fields x ms app)
  unfolding explained_in
  explained_in-Keeps not_asked ms app h = h
  explained_in-Keeps no_explainer ms app h = h
  explained_in-Keeps (explained x) ms app h = observe-Keeps g _ app h

  reset-Keeps : (app : App S R) → app.registry ≡ g → Keeps g (dev_reset_state A B parts app)
  unfolding dev_reset_state call_engine run_on
  reset-Keeps app h = elim (Option-cases app.engine) [ inl off ↦ rw off h | inr (s, on) ↦ rw on h ]

  -- The summary leaves the registry as it was.
  summary-Keeps :
      (r : Option Registry) (app : App S R)
      → app.registry ≡ r
      → app.registry ≡ g
      → Keeps g (registry_summary r app)
  unfolding registry_summary
  summary-Keeps none app own h = h
  summary-Keeps (some r) app own h = ap some (summary_keeps r) ∙ sym own ∙ h

  route-Keeps :
      (call : Call C) (app : App S R)
      → app.registry ≡ g
      → Keeps g (route A B parts fields detect call app)
  unfolding route health drift_summary model_governance_summary metadata predict predict_explain
      monitoring_summary get_engine get_metrics_registry dev_reset_state
  route-Keeps (predicting body ms) app h =
      Keeps-bind g (predict A B parts fields body ms app) _
        (Keeps-bind g (get_engine app) _ h (λ s app1 h1.
          Keeps-bind g (parse_request fields body, app1) _ h1
            (λ request app2 h2.
              Keeps-bind g (score_request A B parts fields false request ms app2) _
                (score_request-Keeps false request ms app2 h2) (λ o app3 h3. h3))))
        (λ r app' h'. h')
  route-Keeps (explaining body ms explain_ms) app h =
      Keeps-bind g (predict_explain A B parts fields body ms explain_ms app) _
        (Keeps-bind g (get_engine app) _ h (λ s app1 h1.
          Keeps-bind g (parse_request fields body, app1) _ h1
            (λ request app2 h2.
              Keeps-bind g (score_request A B parts fields true request ms app2) _
                (score_request-Keeps true request ms app2 h2)
                (λ o app3 h3.
                  Keeps-bind g (explained_in A B parts fields o.explanation explain_ms app3) _
                    (explained_in-Keeps o.explanation explain_ms app3 h3) (λ u app4 h4. h4)))))
        (λ r app' h'. h')
  route-Keeps checking_health app h = h
  route-Keeps reading_metadata app h =
      Keeps-bind g (metadata A B parts app) _ (Keeps-bind g (get_engine app) _ h (λ r app' h'. h'))
        (λ r app' h'. h')
  route-Keeps resetting app h =
      Keeps-bind g (dev_reset_state A B parts app) _ (reset-Keeps app h) (λ r app' h'. h')
  route-Keeps scraping app h =
      Keeps-bind g (monitoring_summary A app) _
        (Keeps-bind g (get_metrics_registry app) _ h (λ r app' h'. h')) (λ r app' h'. h')
  route-Keeps reading_summary app h =
      Keeps-bind g (monitoring_summary A app) _
        (Keeps-bind g (get_metrics_registry app) _ h (λ r app' h'. h')) (λ r app' h'. h')
  route-Keeps reading_drift app h = h
  route-Keeps reading_governance app h =
      Keeps-bind g (registry_summary app.registry app) _ (summary-Keeps app.registry app refl h)
        (λ r app' h'. h')
  route-Keeps (analyzing batch now) app h =
      Keeps-bind g (drift_analyze detect batch now app) _ (analyze-Keeps detect g batch now app h)
        (λ r app' h'. h')

  respond-Keeps :
      (path : String) (ms : Float) (k : Result ApiError (Body X) × App S R)
      → Keeps g k
      → (respond A path ms k).1.registry ≡ g
  unfolding respond handle_error handle_unexpected_error passed_through note
  respond-Keeps path ms (ok b, app) h = h
  respond-Keeps path ms (err request_validation, app) h = h
  respond-Keeps path ms (err backend_unavailable, app) h = h
  respond-Keeps path ms (err runtime_error, app) h = h
  respond-Keeps path ms (err unexpected, app) h = h
  respond-Keeps path ms (err (transaction_validation e), app) h = h
  respond-Keeps path ms (err (http_error code), app) h = h

  -- No sequence of calls changes the governance registry: nothing is promoted, rolled back or registered
  -- over HTTP.
  pub serve_all_registry :
      (calls : List (Call C × Float)) (app : App S R)
      → app.registry ≡ g
      → (serve_all A B parts fields detect calls app).1.registry ≡ g
  unfolding serve_all serve
  serve_all_registry [] app h = h
  serve_all_registry ((call, ms) ∷ cs) app h =
      serve_all_registry cs (serve A B parts fields detect (call, ms) app).1 (
        respond-Keeps (endpoint call) ms (route A B parts fields detect call app)
          (route-Keeps call app h))

module _ {K X I S R C : Type 0} (A : Arithmetic) (B : Backend K I S) (parts : Parts K X)
    (fields : Dict String Value → Option (Dict String Value)) (detect : Detectors R C)
    (body : Dict String Value) (ms total_ms : Float) (s : S) (m : MetricsRegistry)
    (d : Option (Profile R × Monitor)) (g : Option Registry) where
  abbrev app : App S R
  app = record { engine = some s; metrics = some m; drift = d; registry = g }

  -- The body is refused by the schema, or the transaction by the engine's validation.
  abbrev pub IsRefused : Type 0
  IsRefused =
      (parse_request fields body ≡ err request_validation)
      ⊎ ((request : Dict String Value) × (e : ValidationError) × (parse_request fields body
            ≡ ok request)
          × (admitted A parts (build_full_transaction_dict (expected parts.schema) request)
              ≡ err (fault (invalid e))))

  -- A prediction that is refused, by the schema or by the engine's validation, is answered by 422 and
  -- leaves the engine's store as it was. A refusal by the schema is counted once as a request validation
  -- failure and not as one of the engine, a refusal by the engine the other way round, and the request is
  -- counted.
  pub serve_refused :
      IsRefused
      → let (response, after) = serve A B parts fields detect (predicting body ms, total_ms) app in
        (response.status_code ≡ 422)
        × (after.engine ≡ some s)
        × ((m' : MetricsRegistry) × (after.metrics ≡ some m')
            × (m'.request_count_total ≡ m.request_count_total + 1)
            × (m'.prediction_successes ≡ m.prediction_successes)
            × (((parse_request fields body ≡ err request_validation)
                  × (m'.request_validation_failures ≡ m.request_validation_failures + 1)
                  × (m'.engine_validation_failures ≡ m.engine_validation_failures))
                ⊎ ((request : Dict String Value) × (parse_request fields body ≡ ok request)
                    × (m'.request_validation_failures ≡ m.request_validation_failures)
                    × (m'.engine_validation_failures ≡ m.engine_validation_failures + 1))))
  unfolding serve route predict get_engine or_error respond handle_error passed_through note failed
      record_request record_request_validation_failure record_engine_validation_failure
      score_request observe recorded_in record_prediction_attempt call_engine run_on from_engine
      of_engine_error of_fault process_transaction
  serve_refused (inl h) = rw h (refl, refl, (_, refl, refl, refl, inl (refl, refl, refl)))
  serve_refused (inr (request, e, parsed, refused)) =
      rw (parsed, refused) (refl, refl, (_, refl, refl, refl, inr (request, refl, refl, refl)))
