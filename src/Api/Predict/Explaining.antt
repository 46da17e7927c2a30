-- ===== src/Api/Predict/Explaining.antt =====
-- `/predict/explain` on an engine without an explainer.
use real_time_risk_fraud_eng.Prelude.{
  ◌≡◌, refl, ◌∙◌, ap, sym, true, String, Option, none, some, ◌⊎◌, ◌∷◌, [],
}
use real_time_risk_fraud_eng.Prelude.Keys.{Dict, Hashable}
use real_time_risk_fraud_eng.Result.{ok, err, bind_ok, ok_injective}
use real_time_risk_fraud_eng.Float.{Float, Arithmetic}
use real_time_risk_fraud_eng.Value.{Value}
use real_time_risk_fraud_eng.Decision.Policy.{decide}
use real_time_risk_fraud_eng.State.Entity.{EntityState, Features, features_of, updated, read_prune}
use real_time_risk_fraud_eng.State.Backend.{Backend}
use real_time_risk_fraud_eng.State.Backend.Contract.{IsStore}
use real_time_risk_fraud_eng.State.Manager.Trace.{or_new}
use real_time_risk_fraud_eng.Engine.{process_transaction}
use real_time_risk_fraud_eng.Engine.Validation.{expected, numeric_columns}
use real_time_risk_fraud_eng.Engine.Atomicity.{
  process_transaction-eq-answer, process_transaction_records,
}
use real_time_risk_fraud_eng.Engine.Assess.{
  Outcome, Parts, admitted, assess, raw_row, from_external, first_decision, explanation_of,
  explain_with, outcome, no_explainer,
}
use real_time_risk_fraud_eng.Monitoring.Metrics.{MetricsRegistry, bucket_label}
use real_time_risk_fraud_eng.Drift.Monitor.{Profile, Monitor}
use real_time_risk_fraud_eng.Governance.Registry.{Registry}
use real_time_risk_fraud_eng.Api.{http_error, get_engine}
use real_time_risk_fraud_eng.Api.Requests.{parse_request, build_full_transaction_dict}
use real_time_risk_fraud_eng.Api.Requests.Admission.{default_columns}
use real_time_risk_fraud_eng.Api.Predict.{predict_explain, explained_in}
use real_time_risk_fraud_eng.Api.Predict.Store.{
  app_with, scored, score_request_engine, score_request_off, score_request_on,
}
use real_time_risk_fraud_eng.Api.Predict.Interference.{amount_of-admitted}

module _ {K X : Type 0} (A : Arithmetic) (parts : Parts K X) where
  -- The result of an engine without an explainer says so.
  unexplained :
      (txn : Dict String Value) (f : Features) (o : Outcome X)
      → parts.explainer ≡ none
      → assess A parts true txn f ≡ ok o
      → o.explanation ≡ no_explainer
  unfolding assess explanation_of explain_with outcome
  unexplained txn f o missing h =
      let row = raw_row (expected parts.schema) txn in
      let (score, predicted, h1) =
        bind_ok (from_external (parts.predict (numeric_columns parts.schema) row f)) _ o h in
      let (d, decided, h2) = bind_ok (first_decision (decide parts.policy (score ∷ []))) _ o h1 in
      let (x, explained, last) = bind_ok (explanation_of A parts true row f) _ o h2 in
      sym (ap (λ (r : Outcome X). r.explanation) (ok_injective last))
      ∙ sym (ok_injective (nothing row f ∙ explained))
    where
      nothing :
          (row : Dict String Value) (f : Features)
          → ok no_explainer ≡ explanation_of A parts true row f
      nothing row f = rw missing refl

module _ {K X I S R : Type 0} ⦃e : Hashable K⦄ (A : Arithmetic) (B : Backend K I S)
    (view : S → K → Option EntityState) (store : IsStore B view) (parts : Parts K X)
    (fields : Dict String Value → Option (Dict String Value)) (body request : Dict String Value)
    (ms explain_ms : Float) (s : S) (d : Option (Profile R × Monitor)) (g : Option Registry)
    (parsed : parse_request fields body ≡ ok request) where
  abbrev txn : Dict String Value
  txn = build_full_transaction_dict (expected parts.schema) request

  module _ (k : K) (now amount : Float) (o : Outcome X)
      (admits : admitted A parts txn ≡ ok (k, now, amount))
      (answers : (process_transaction A B parts true txn s).0 ≡ ok o) where
    scored_ok :
        (m : Option MetricsRegistry) (l : String)
        → parts.columns ≡ default_columns
        → bucket_label A o.risk_score ≡ ok l
        → (scored A B parts fields true request ms s d g m).0 ≡ ok o
    scored_ok none l default bucket =
        score_request_off A B parts fields true request ms s d g o answers
    scored_ok (some m) l default bucket =
        let (a, read) = amount_of-admitted A B parts txn k now amount default admits in
        score_request_on A B parts fields true request ms s d g o m l a answers bucket read

    explanation_missing : parts.explainer ≡ none → o.explanation ≡ no_explainer
    explanation_missing none_there =
        unexplained A parts txn (features_of A now amount (view s k)) o none_there (
          sym (process_transaction-eq-answer A B view store parts true txn s ∙ rw admits refl)
          ∙ answers)

    -- Over a store, with the default columns, an engine without an explainer that answers an accepted request
    -- whose score has a bucket: the client gets a 503, but the transaction is recorded once for its entity.
    pub predict_explain_records :
        (m : Option MetricsRegistry) (l : String)
        → parts.columns ≡ default_columns
        → parts.explainer ≡ none
        → bucket_label A o.risk_score ≡ ok l
        → let (answer, after) =
            predict_explain A B parts fields body ms explain_ms
              (app_with A B parts fields true request ms s d g m) in
          (answer ≡ err (http_error 503))
          × ((s' : S) × (after.engine ≡ some s')
              × ((view s' k ≡ some (updated A now amount (or_new (view s k))))
                  ⊎ (view s' k
                      ≡ some (updated A now amount (read_prune A now (or_new (view s k)))))))
    unfolding predict_explain get_engine scored explained_in
    predict_explain_records m l default none_there bucket = (
      rw (parsed, scored_ok m l default bucket, explanation_missing none_there) refl,
      (
        (process_transaction A B parts true txn s).1,
        rw (parsed, scored_ok m l default bucket, explanation_missing none_there)
            (score_request_engine A B parts fields true request ms s d g m),
        process_transaction_records A B view store parts true txn s k now amount admits o answers,
      ),
    )
