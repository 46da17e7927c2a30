-- ===== src/Api/Tests.antt =====
-- Calls of the API over the in-memory backend, with a model that gives 0.75 to everything, no explainer,
-- and a conversion that leaves the body as it is.
use real_time_risk_fraud_eng.Prelude.{
  ℕ, ◌+◌, ◌≡◌, ◌⊎◌, refl, subst, ◌∙◌, inl, true, false, String, Option, none, some, List, [], ◌∷◌,
  All, keep, length, if◌then◌else◌, arith,
}
use real_time_risk_fraud_eng.Prelude.Int.{pos}
use real_time_risk_fraud_eng.Governance.Registry.{Registry}
use real_time_risk_fraud_eng.Prelude.Keys.{Dict, lookup, str_key}
use real_time_risk_fraud_eng.Prelude.Distinct.{elem}
use real_time_risk_fraud_eng.Result.{ok, err, ok_injective}
use real_time_risk_fraud_eng.Float.{
  Float, exact, is_finite, is_nan, lt, le, zero_float, scale, dyadic,
}
use real_time_risk_fraud_eng.Float.Exact.{exact_arithmetic}
use real_time_risk_fraud_eng.Value.{Value, number, float, int, value_of}
use real_time_risk_fraud_eng.Decision.Policy.{decide, block}
use real_time_risk_fraud_eng.Decision.Policy.Tests.{sample_policy, three_quarters}
use real_time_risk_fraud_eng.State.Entity.{EntityState, Features, features_of, updated, read_prune}
use real_time_risk_fraud_eng.State.Backend.{in_memory}
use real_time_risk_fraud_eng.State.Backend.Contract.{in_memory-IsStore}
use real_time_risk_fraud_eng.Engine.Validation.{
  Schema, expected, has_key, value_at, validate, insert_sorted, invalid, not_finite, finite_number,
  to_float, is_null, missing,
}
use real_time_risk_fraud_eng.Engine.Assess.{
  Parts, Outcome, no_explainer, admitted, assess, raw_row, first_decision, or_raise, explanation_of,
  explain_with, outcome,
}
use real_time_risk_fraud_eng.Engine.{process_transaction}
use real_time_risk_fraud_eng.Engine.Atomicity.{process_transaction-eq-answer}
use real_time_risk_fraud_eng.State.Manager.Trace.{or_new}
use real_time_risk_fraud_eng.Monitoring.Metrics.{MetricsRegistry, empty, bucket_label}
use real_time_risk_fraud_eng.Drift.Report.{low_drift}
use real_time_risk_fraud_eng.Drift.Monitor.{Detectors}
use real_time_risk_fraud_eng.Api.{App, ApiError, request_validation, http_error}
use real_time_risk_fraud_eng.Api.Predict.{predict, predict_explain}
use real_time_risk_fraud_eng.Api.Predict.Store.{engine_run}
use real_time_risk_fraud_eng.Api.Predict.Interference.{predict_store, predict_unobserved}
use real_time_risk_fraud_eng.Api.Predict.Explaining.{predict_explain_records}
use real_time_risk_fraud_eng.Api.Serve.{
  Call, predicting, explaining, resetting, reading_governance, serve, serve_all,
}
use real_time_risk_fraud_eng.Api.Serve.Spare.{HasSpare}
use real_time_risk_fraud_eng.Api.Serve.Counting.{serve_all_counts}
use real_time_risk_fraud_eng.Api.Serve.Answers.{serve_all_registry, serve_refused}
use real_time_risk_fraud_eng.Api.Requests.{parse_request, dt_is_finite, build_full_transaction_dict}
use real_time_risk_fraud_eng.Api.Requests.Admission.{
  default_columns, IsTyped, parse_request-validate,
}

abbrev schema : Schema
schema =
    record { name = "TransactionID"; used = false; numeric = true }
    ∷ record { name = "TransactionDT"; used = false; numeric = true }
    ∷ record { name = "isFraud"; used = false; numeric = true }
    ∷ record { name = "TransactionAmt"; used = true; numeric = true }
    ∷ record { name = "card1"; used = true; numeric = true }
    ∷ []

abbrev parts : Parts String (Unit {0})
parts = record {
  schema = schema;
  columns = default_columns;
  policy = sample_policy;
  key = λ v. some "c1";
  predict = λ columns row f. ok three_quarters;
  explainer = none;
}

abbrev fields : Dict String Value → Option (Dict String Value)
fields body = some body

abbrev hundred : Float
hundred = exact (pos 100)

abbrev five : Float
five = exact (pos 5)

abbrev body : Dict String Value
body =
    ("TransactionID", number (int (pos 1)))
    ∷ ("TransactionDT", number (float hundred))
    ∷ ("TransactionAmt", number (float five))
    ∷ ("card1", number (int (pos 7)))
    ∷ []

abbrev labelled : Dict String Value
labelled = ("isFraud", number (int (pos 0))) ∷ body

abbrev nobody : Dict String EntityState
nobody = []

body-parses : parse_request fields body ≡ ok body
unfolding parse_request has_key lookup dt_is_finite value_at is_finite exact
body-parses = refl

body-IsTyped : IsTyped body
unfolding value_at lookup le zero_float exact scale
body-IsTyped = record {
  id = pos 1;
  dt = hundred;
  amt = five;
  card = pos 7;
  has_id = refl;
  has_dt = refl;
  has_amt = refl;
  has_card = refl;
  not_negative = refl;
}

all_expected :
    All
      (λ c. elem c (expected schema) ≡ true)
      ("TransactionID" ∷ "TransactionDT" ∷ "TransactionAmt" ∷ "card1" ∷ [])
unfolding expected insert_sorted
all_expected = (refl, (refl, (refl, (refl, tt))))

parse_request-validate_example :
    (has_key body "isFraud" ≡ false)
    × (validate exact_arithmetic schema default_columns
          (build_full_transaction_dict (expected schema) body)
        ≡ (if is_finite body-IsTyped.amt
            then ok tt
            else err (invalid (not_finite "TransactionAmt"))))
parse_request-validate_example =
    parse_request-validate exact_arithmetic schema fields body body body-IsTyped all_expected
      body-parses

abbrev running : Option MetricsRegistry → App (Dict String EntityState) ℕ
running m = record { engine = some nobody; metrics = m; drift = none; registry = none }

predict_store_example :
    ((request : Dict String Value) × (parse_request fields body ≡ ok request)
      × ((predict exact_arithmetic in_memory parts fields body zero_float (running none)).1.engine
          ≡ some (engine_run exact_arithmetic in_memory parts false request nobody).1))
    ⊎ ((x : ApiError) × (parse_request fields body ≡ err x)
        × (predict exact_arithmetic in_memory parts fields body zero_float (running none)
            ≡ (err x, running none)))
predict_store_example =
    predict_store exact_arithmetic in_memory parts fields body zero_float nobody none none none

bucket : bucket_label exact_arithmetic three_quarters ≡ ok "0.0-0.1"
unfolding bucket_label dyadic scale
bucket = refl

bucketed :
    (x : Float) → three_quarters ≡ x → (l : String) × (bucket_label exact_arithmetic x ≡ ok l)
bucketed x h =
    subst (λ y. (l : String) × (bucket_label exact_arithmetic y ≡ ok l)) h ("0.0-0.1", bucket)

predict_unobserved_example :
    ((predict exact_arithmetic in_memory parts fields body zero_float (running (some empty))).0
      ≡ (predict exact_arithmetic in_memory parts fields body zero_float (running none)).0)
    × ((predict exact_arithmetic in_memory parts fields body zero_float
          (running (some empty))).1.engine
        ≡ (predict exact_arithmetic in_memory parts fields body zero_float (running none)).1.engine)
predict_unobserved_example =
    predict_unobserved exact_arithmetic in_memory parts fields body zero_float nobody none none
      empty refl (λ columns row f x gives. bucketed x (ok_injective gives))

abbrev detect : Detectors ℕ ℕ
detect = record { numeric = λ r c. low_drift; categorical = λ r c. (low_drift, []) }

abbrev session : List (Call ℕ × Float)
session =
    (predicting body zero_float, zero_float)
    ∷ (explaining labelled zero_float zero_float, zero_float)
    ∷ (resetting, zero_float)
    ∷ (reading_governance, zero_float)
    ∷ []

running-HasSpare : HasSpare 0 0 (running (some empty))
running-HasSpare = (empty, refl, refl, omega arith)

serve_all_counts_example :
    (length
        (serve_all exact_arithmetic in_memory parts fields detect session (running (some empty))).0
      ≡ 4)
    × HasSpare 4 0
        (serve_all exact_arithmetic in_memory parts fields detect session (running (some empty))).1
serve_all_counts_example =
    serve_all_counts exact_arithmetic in_memory parts fields detect 0 session (running (some empty))
      running-HasSpare

abbrev no_models : Registry
no_models = record { champion_model_id = none; models = [] }

serve_all_registry_example :
    (serve_all exact_arithmetic in_memory parts fields detect session
      (record (running (some empty)) { registry = some no_models })).1.registry
    ≡ some no_models
serve_all_registry_example =
    serve_all_registry exact_arithmetic in_memory parts fields detect (some no_models) session
      (record (running (some empty)) { registry = some no_models }) refl

labelled-refused : parse_request fields labelled ≡ err request_validation
unfolding parse_request has_key lookup
labelled-refused = refl

serve_refused_example :
    let (response, after) =
      serve exact_arithmetic in_memory parts fields detect
        (predicting labelled zero_float, zero_float)
        (running (some empty)) in
    (response.status_code ≡ 422)
    × (after.engine ≡ some nobody)
    × ((m' : MetricsRegistry) × (after.metrics ≡ some m')
        × (m'.request_count_total ≡ 0 + 1)
        × (m'.prediction_successes ≡ 0)
        × (((parse_request fields labelled ≡ err request_validation)
              × (m'.request_validation_failures ≡ 0 + 1)
              × (m'.engine_validation_failures ≡ 0))
            ⊎ ((request : Dict String Value) × (parse_request fields labelled ≡ ok request)
                × (m'.request_validation_failures ≡ 0)
                × (m'.engine_validation_failures ≡ 0 + 1))))
serve_refused_example =
    serve_refused exact_arithmetic in_memory parts fields detect labelled zero_float zero_float
      nobody empty none none (inl labelled-refused)

abbrev full : Dict String Value
full = build_full_transaction_dict (expected schema) body

abbrev found : Dict String EntityState → String → Option EntityState
found d k = lookup k d

full-admitted : admitted exact_arithmetic parts full ≡ ok ("c1", hundred, five)
unfolding admitted validate has_key lookup expected insert_sorted finite_number to_float value_at
    is_null is_finite lt zero_float exact keep scale build_full_transaction_dict missing
full-admitted = refl

abbrev features : Features
features = features_of exact_arithmetic hundred five none

abbrev answered : Outcome (Unit {0})
answered = record {
  transaction_id = number (int (pos 1));
  risk_score = three_quarters;
  decision = block;
  explanation = no_explainer;
  behavioral_features = features;
  state_updated = true;
  policy_name = sample_policy.name;
  approve_at = sample_policy.approve_at;
  block_at = sample_policy.block_at;
}

assess_done : assess exact_arithmetic parts true full features ≡ ok answered
unfolding assess raw_row first_decision decide is_nan le lt dyadic scale value_at lookup value_of
    expected insert_sorted build_full_transaction_dict or_raise explanation_of explain_with outcome
assess_done = refl

process_done :
    (process_transaction exact_arithmetic in_memory parts true full nobody).0 ≡ ok answered
unfolding lookup
process_done =
    process_transaction-eq-answer exact_arithmetic in_memory found in_memory-IsStore parts true full
      nobody
    ∙ rw full-admitted assess_done

predict_explain_records_example :
    let (answer, after) =
      predict_explain exact_arithmetic in_memory parts fields body zero_float zero_float
        (running none) in
    (answer ≡ err (http_error 503))
    × ((s' : Dict String EntityState) × (after.engine ≡ some s')
        × ((found s' "c1"
              ≡ some (updated exact_arithmetic hundred five (or_new (found nobody "c1"))))
            ⊎ (found s' "c1"
                ≡ some (
                    updated exact_arithmetic hundred five
                      (read_prune exact_arithmetic hundred (or_new (found nobody "c1")))))))
predict_explain_records_example =
    predict_explain_records exact_arithmetic in_memory found in_memory-IsStore parts fields body
      body zero_float zero_float nobody none none body-parses "c1" hundred five answered
      full-admitted process_done none "0.0-0.1" refl refl bucket
