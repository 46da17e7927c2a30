-- ===== src/Api/Serve/Spare.antt =====
-- The counters of requests and predictions through the routes of the predictions.
use real_time_risk_fraud_eng.Prelude.{
  ℕ, ◌+◌, ◌≤◌, ◌≡◌, refl, ◌∙◌, Bool, true, false, String, Option, none, some, arith, inl, inr,
  Option-cases, Bool-cases, ◌&&◌,
}
use real_time_risk_fraud_eng.Prelude.Keys.{Dict}
use real_time_risk_fraud_eng.Result.{Result, ok, err, Result-cases}
use real_time_risk_fraud_eng.Exec.{Exec, continue, modify}
use real_time_risk_fraud_eng.Float.{Float, le, zero_float, one_float, Arithmetic}
use real_time_risk_fraud_eng.Value.{Value}
use real_time_risk_fraud_eng.State.Backend.{Backend}
use real_time_risk_fraud_eng.Engine.{process_transaction}
use real_time_risk_fraud_eng.Engine.Validation.{has_key, value_at, expected}
use real_time_risk_fraud_eng.Engine.Assess.{
  EngineError, Outcome, Parts, Explanation, not_asked, no_explainer, explained,
}
use real_time_risk_fraud_eng.Monitoring.Metrics.{
  MetricsRegistry, MetricsError, record_prediction_attempt, record_prediction_success,
  record_explanation, count_score, count_rest, count_amount, bucket_label,
}
use real_time_risk_fraud_eng.Api.{
  App, ApiError, request_validation, backend_unavailable, runtime_error, unexpected,
  transaction_validation, http_error, get_engine, call_engine, run_on, observe, recorded_in,
  from_metrics, or_error,
}
use real_time_risk_fraud_eng.Api.Requests.{dt_is_finite, parse_request, build_full_transaction_dict}
use real_time_risk_fraud_eng.Api.Predict.{
  decision_text, amount_for, record_success, score_request, predict, predict_explain,
  predict_response, explained_in,
}

-- What a handler still adds to the failures of predictions.
abbrev pub due : ApiError → ℕ
due (transaction_validation e) = 1
due request_validation = 0
due backend_unavailable = 0
due runtime_error = 0
due unexpected = 0
due (http_error code) = 0

abbrev pub owed : {X : Type 0} → Result ApiError X → ℕ
owed (ok x) = 0
owed (err e) = due e

due-le : (e : ApiError) → due e ≤ 1
due-le (transaction_validation e) = omega arith
due-le request_validation = omega arith
due-le backend_unavailable = omega arith
due-le runtime_error = omega arith
due-le unexpected = omega arith
due-le (http_error code) = omega arith

recording_owes_nothing : (r : Result MetricsError (Unit {0})) → owed (from_metrics r) ≡ 0
unfolding from_metrics
recording_owes_nothing (ok u) = refl
recording_owes_nothing (err e) = refl

parse_owes_nothing :
    (fields : Dict String Value → Option (Dict String Value)) (body : Dict String Value)
    → owed (parse_request fields body) ≡ 0
unfolding parse_request or_error
parse_owes_nothing fields body = elim (Bool-cases (has_key body "isFraud")) [
  | inl label ↦ rw label refl
  | inr unlabelled ↦ elim (Option-cases (fields body)) [
    | inl failed ↦ rw (unlabelled, failed) refl
    | inr (r, typed) ↦ elim (Bool-cases (dt_is_finite (value_at "TransactionDT" r))) [
      | inl finite ↦ rw (unlabelled, typed, finite) refl
      | inr infinite ↦ rw (unlabelled, typed, infinite) refl
    ]
  ]
]

response_owes_nothing : {X : Type 0} (o : Outcome X) → owed (predict_response o) ≡ 0
unfolding predict_response le zero_float
response_owes_nothing o =
    elim (Bool-cases (le zero_float o.risk_score && le o.risk_score one_float)) [
      | inl good ↦ rw good refl
      | inr bad ↦ rw bad refl
    ]

module _ {S R : Type 0} where
  -- There are metrics, with `t` requests, and with `c` attempts to spare.
  abbrev pub HasSpare : ℕ → ℕ → App S R → Type 0
  HasSpare t c app =
      (m : MetricsRegistry) × (app.metrics ≡ some m)
      × (m.request_count_total ≡ t)
      × (m.prediction_successes + m.prediction_failures + c ≤ m.prediction_attempts)

  abbrev pub Holds : {X : Type 0} → ℕ → Result ApiError X × App S R → Type 0
  Holds t k = HasSpare t (owed k.0) k.1

  pub weaken : (t c c' : ℕ) (app : App S R) → c' ≤ c → HasSpare t c app → HasSpare t c' app
  weaken t c c' app h (m, on, total, spare) = (m, on, total, omega arith)

  pub Holds-bind :
      {X Y : Type 0} (t : ℕ) (k : Result ApiError X × App S R) (f : X → Exec ApiError (App S R) Y)
      → Holds t k
      → ((x : X) (app : App S R) → HasSpare t 0 app → Holds t (f x app))
      → Holds t (continue k.0 f k.1)
  Holds-bind t (ok x, app) f h next = next x app h
  Holds-bind t (err e, app) f h next = h

  -- The same with an attempt that is not settled yet: what raises settles it.
  Holds-bind_open :
      {X Y : Type 0} (t : ℕ) (k : Result ApiError X × App S R) (f : X → Exec ApiError (App S R) Y)
      → HasSpare t 1 k.1
      → ((x : X) (app : App S R) → HasSpare t 1 app → Holds t (f x app))
      → Holds t (continue k.0 f k.1)
  Holds-bind_open t (ok x, app) f h next = next x app h
  Holds-bind_open t (err e, app) f h next = weaken t 1 (due e) app (due-le e) h

  pub same_metrics :
      (t c : ℕ) (app app' : App S R)
      → app'.metrics ≡ app.metrics
      → HasSpare t c app
      → HasSpare t c app'
  same_metrics t c app app' same (m, on, total, spare) = (m, same ∙ on, total, spare)

  pub owes_nothing :
      {X : Type 0} (t : ℕ) (r : Result ApiError X) (app : App S R)
      → owed r ≡ 0
      → HasSpare t 0 app
      → Holds t (r, app)
  owes_nothing t r app free (m, on, total, spare) = (m, on, total, omega (arith, free))

  pub call_engine_metrics :
      {X : Type 0} (m : Exec EngineError S X) (app : App S R)
      → (call_engine m app).1.metrics ≡ app.metrics
  unfolding call_engine run_on
  call_engine_metrics m app = elim (Option-cases app.engine) [
    | inl off ↦ rw off refl
    | inr (s, on) ↦ rw on refl
  ]

module _ (A : Arithmetic) where
  -- A success is counted once, also where its score has no bucket.
  success_counts :
      (decision : String) (score ms : Float) (amount : Option Float) (m : MetricsRegistry)
      → let m' = (record_prediction_success A decision score ms amount m).1 in
        (m'.request_count_total ≡ m.request_count_total)
        × (m'.prediction_successes ≡ m.prediction_successes + 1)
        × (m'.prediction_failures ≡ m.prediction_failures)
        × (m'.prediction_attempts ≡ m.prediction_attempts)
  unfolding record_prediction_success count_score count_rest count_amount
  success_counts decision score ms none m = elim (Result-cases (bucket_label A score)) [
    | inl (l, e) ↦ rw e (refl, refl, refl, refl)
    | inr (x, e) ↦ rw e (refl, refl, refl, refl)
  ]
  success_counts decision score ms (some a) m = elim (Result-cases (bucket_label A score)) [
    | inl (l, e) ↦ rw e (refl, refl, refl, refl)
    | inr (x, e) ↦ rw e (refl, refl, refl, refl)
  ]

  module _ {S R : Type 0} where
    attempt_opens :
        (t : ℕ) (app : App S R)
        → HasSpare t 0 app
        → HasSpare t 1 (observe (modify (record_prediction_attempt A)) app).1
    unfolding observe recorded_in record_prediction_attempt
    attempt_opens t app (m, on, total, spare) =
        rw on (record_prediction_attempt A m, refl, total, omega arith)

    explanation_keeps :
        (t : ℕ) (ms : Float) (app : App S R)
        → HasSpare t 0 app
        → Holds t (observe (modify (record_explanation A ms)) app)
    unfolding observe recorded_in record_explanation from_metrics
    explanation_keeps t ms app (m, on, total, spare) =
        rw on (record_explanation A ms m, refl, total, spare)

    observed_success :
        (t : ℕ) (decision : String) (score ms : Float) (amount : Option Float) (app : App S R)
        → HasSpare t 1 app
        → Holds t (observe (record_prediction_success A decision score ms amount) app)
    unfolding observe recorded_in
    observed_success t decision score ms amount app (m, on, total, spare) =
        let k = success_counts decision score ms amount m in
        rw on (
          (record_prediction_success A decision score ms amount m).1,
          refl,
          k.0 ∙ total,
          omega (
            arith,
            k.1,
            k.2,
            k.3,
            recording_owes_nothing (record_prediction_success A decision score ms amount m).0,
          ),
        )

module _ {K X I S R : Type 0} (A : Arithmetic) (B : Backend K I S) (parts : Parts K X)
    (fields : Dict String Value → Option (Dict String Value)) where
  record_success-Holds :
      (t : ℕ) (txn : Dict String Value) (ms : Float) (o : Outcome X) (app : App S R)
      → HasSpare t 1 app
      → Holds t (record_success A B parts fields txn ms o app)
  unfolding record_success
  record_success-Holds t txn ms o app h =
      Holds-bind_open t (amount_for A B parts fields txn app, app) _ h
        (λ a app' h'.
          Holds-bind t
            (observe (record_prediction_success A (decision_text o.decision) o.risk_score ms a)
              app')
            _ (observed_success A t (decision_text o.decision) o.risk_score ms a app' h')
            (λ u app'' h''. h''))

  score_request-Holds :
      (t : ℕ) (explain : Bool) (request : Dict String Value) (ms : Float) (app : App S R)
      → HasSpare t 0 app
      → Holds t (score_request A B parts fields explain request ms app)
  unfolding score_request
  score_request-Holds t explain request ms app h =
      let txn = build_full_transaction_dict (expected parts.schema) request in
      Holds-bind_open t (observe (modify (record_prediction_attempt A)) app) _
        (attempt_opens A t app h)
        (λ u app1 h1.
          Holds-bind_open t (call_engine (process_transaction A B parts explain txn) app1) _
            (same_metrics t 1 app1 (call_engine (process_transaction A B parts explain txn) app1).1
              (call_engine_metrics (process_transaction A B parts explain txn) app1) h1)
            (λ o app2 h2. record_success-Holds t txn ms o app2 h2))

  explained_in-Holds :
      (t : ℕ) (x : Explanation X) (ms : Float) (app : App S R)
      → HasSpare t 0 app
      → Holds t (explained_in A B parts fields x ms app)
  unfolding explained_in
  explained_in-Holds t not_asked ms app h = h
  explained_in-Holds t no_explainer ms app h = h
  explained_in-Holds t (explained x) ms app h = explanation_keeps A t ms app h

  pub engine_asked : (t : ℕ) (app : App S R) → HasSpare t 0 app → Holds t (get_engine app)
  unfolding get_engine or_error
  engine_asked t app h = elim (Option-cases app.engine) [
    | inl off ↦ rw off h
    | inr (s, on) ↦ rw on h
  ]

  pub predict-Holds :
      (t : ℕ) (body : Dict String Value) (ms : Float) (app : App S R)
      → HasSpare t 0 app
      → Holds t (predict A B parts fields body ms app)
  unfolding predict
  predict-Holds t body ms app h =
      Holds-bind t (get_engine app) _ (engine_asked t app h) (λ s app1 h1.
        Holds-bind t (parse_request fields body, app1) _
          (owes_nothing t (parse_request fields body) app1 (parse_owes_nothing fields body) h1)
          (λ request app2 h2.
            Holds-bind t (score_request A B parts fields false request ms app2) _
              (score_request-Holds t false request ms app2 h2)
              (λ o app3 h3. owes_nothing t (predict_response o) app3 (response_owes_nothing o) h3)))

  pub predict_explain-Holds :
      (t : ℕ) (body : Dict String Value) (ms explain_ms : Float) (app : App S R)
      → HasSpare t 0 app
      → Holds t (predict_explain A B parts fields body ms explain_ms app)
  unfolding predict_explain
  predict_explain-Holds t body ms explain_ms app h =
      Holds-bind t (get_engine app) _ (engine_asked t app h) (λ s app1 h1.
        Holds-bind t (parse_request fields body, app1) _
          (owes_nothing t (parse_request fields body) app1 (parse_owes_nothing fields body) h1)
          (λ request app2 h2.
            Holds-bind t (score_request A B parts fields true request ms app2) _
              (score_request-Holds t true request ms app2 h2)
              (λ o app3 h3.
                Holds-bind t (explained_in A B parts fields o.explanation explain_ms app3) _
                  (explained_in-Holds t o.explanation explain_ms app3 h3) (λ u app4 h4. h4))))
