-- ===== src/Api/Predict/Interference.antt =====
-- The metrics observe a prediction and change neither its answer nor the engine.
use real_time_risk_fraud_eng.Prelude.{
  ◌≡◌, refl, ◌∙◌, ap, sym, subst, Bool, false, List, [], ◌∷◌, String, Option, none, some, arith,
  inl, inr, ◌⊎◌,
}
use real_time_risk_fraud_eng.Prelude.Keys.{Dict}
use real_time_risk_fraud_eng.Result
use real_time_risk_fraud_eng.Result.{Result, ok, err, Result-cases, bind_ok, ok_injective}
use real_time_risk_fraud_eng.Exec.{Exec, continue, lift}
use real_time_risk_fraud_eng.Float.{Float, Arithmetic}
use real_time_risk_fraud_eng.Value.{Value}
use real_time_risk_fraud_eng.Decision.Policy.{decide}
use real_time_risk_fraud_eng.State.Entity.{Features}
use real_time_risk_fraud_eng.State.Manager.{compute_features, update}
use real_time_risk_fraud_eng.State.Backend.{Backend}
use real_time_risk_fraud_eng.Engine.{process_transaction, run_steps, in_state}
use real_time_risk_fraud_eng.Engine.Validation.{
  numeric_columns, Columns, Fault, expected, to_float, value_at, validate,
}
use real_time_risk_fraud_eng.Engine.Assess.{
  EngineError, Outcome, Parts, admitted, assess, faulty, or_raise, unhashable, External,
  from_external, outcome, raw_row, first_decision, explanation_of,
}
use real_time_risk_fraud_eng.Monitoring.Metrics.{MetricsRegistry, bucket_label}
use real_time_risk_fraud_eng.Monitoring.DataQuality.{extract_transaction_amount, or_missing}
use real_time_risk_fraud_eng.Drift.Monitor.{Profile, Monitor}
use real_time_risk_fraud_eng.Governance.Registry.{Registry}
use real_time_risk_fraud_eng.Api.{App, ApiError, get_engine}
use real_time_risk_fraud_eng.Api.Requests.{parse_request, build_full_transaction_dict}
use real_time_risk_fraud_eng.Api.Requests.Admission.{default_columns}
use real_time_risk_fraud_eng.Api.Predict.{PredictResponse, amount_of, predict, predict_response}
use real_time_risk_fraud_eng.Api.Predict.Store.{
  engine_run, app_with, scored, score_request_engine, score_request_err, score_request_off,
  score_request_on,
}

-- What is lifted after a call changes its result only.
lifted :
    {E T Y Z : Type 0} (r : Result E Y) (g : Y → Result E Z) (t : T)
    → continue r (λ y. lift (g y)) t ≡ (Result.◌>>=◌ r g, t)
lifted (ok y) g t = refl
lifted (err e) g t = refl

faulty_ok : {X : Type 0} (r : Result Fault X) (x : X) → faulty r ≡ ok x → r ≡ ok x
unfolding faulty
faulty_ok (ok y) x h = ground arith
faulty_ok (err e) x h = ground arith

continued :
    {E T Y Z : Type 0} (r : Result E Y) (f : Y → Exec E T Z) (t : T) (z : Z)
    → (continue r f t).0 ≡ ok z
    → (y : Y) × (r ≡ ok y) × ((f y t).0 ≡ ok z)
continued (ok y) f t z h = (y, refl, h)
continued (err e) f t z h = ground arith

raised_not :
    {Y : Type 0} (e : EngineError) (o : Option Y) (y : Y) → or_raise e o ≡ ok y → o ≡ some y
unfolding or_raise
raised_not e none y h = ground arith
raised_not e (some x) y h = ap some (ok_injective h)

from_external_ok :
    {Y : Type 0} (o : Result.Result External Y) (y : Y) → from_external o ≡ ok y → o ≡ ok y
unfolding from_external
from_external_ok (err e) y h = ground arith
from_external_ok (ok x) y h = ap ok (ok_injective h)

module _ {K X I S : Type 0} (A : Arithmetic) (B : Backend K I S) (parts : Parts K X) where
  -- A score that is answered is one that the model gave.
  abbrev pub IsModelled : Outcome X → Type 0
  IsModelled o =
      (columns : List String) × (row : Dict String Value) × (f : Features) × (parts.predict columns
          row f
        ≡ ok o.risk_score)

  assess-IsModelled :
      (explain : Bool) (txn : Dict String Value) (f : Features) (o : Outcome X)
      → assess A parts explain txn f ≡ ok o
      → IsModelled o
  unfolding assess outcome
  assess-IsModelled explain txn f o h =
      let row = raw_row (expected parts.schema) txn in
      let columns = numeric_columns parts.schema in
      let (score, predicted, h1) = bind_ok (from_external (parts.predict columns row f)) _ o h in
      let (d, decided, h2) = bind_ok (first_decision (decide parts.policy (score ∷ []))) _ o h1 in
      let (x, explained, last) = bind_ok (explanation_of A parts explain row f) _ o h2 in
      (
        columns,
        row,
        f,
        from_external_ok (parts.predict columns row f) score predicted
            ∙ ap (λ (r : Outcome X). ok r.risk_score) (ok_injective last),
      )

  process_transaction-IsModelled :
      (explain : Bool) (txn : Dict String Value) (s : S) (o : Outcome X)
      → (process_transaction A B parts explain txn s).0 ≡ ok o
      → IsModelled o
  unfolding process_transaction run_steps
  process_transaction-IsModelled explain txn s o h =
      let (v, admits, h1) = continued (admitted A parts txn) _ s o h in
      let read = compute_features A B v.0 v.1 v.2 s in
      let (f, features, h2) = continued (in_state read.0) _ read.1 o h1 in
      let (o', assessed, h3) = continued (assess A parts explain txn f) _ read.1 o h2 in
      let written = update A B v.0 v.1 v.2 read.1 in
      let (u, stored, last) = continued (in_state written.0) _ written.1 o h3 in
      assess-IsModelled explain txn f o (assessed ∙ last)

  -- A transaction that the engine answers was admitted, and its amount is a number.
  pub admitted_of_ok :
      (explain : Bool) (txn : Dict String Value) (s : S) (o : Outcome X)
      → (process_transaction A B parts explain txn s).0 ≡ ok o
      → (v : K × Float × Float) × (admitted A parts txn ≡ ok v)
  unfolding process_transaction
  admitted_of_ok explain txn s o h = elim (Result-cases (admitted A parts txn)) [
    | inl (v, e) ↦ (v, e)
    | inr (x, e) ↦ absurd (ground (arith, h, e))
  ]

  pub amount_of-admitted :
      (txn : Dict String Value) (k : K) (now amount : Float)
      → parts.columns ≡ default_columns
      → admitted A parts txn ≡ ok (k, now, amount)
      → (a : Option Float) × (amount_of (extract_transaction_amount A "TransactionAmt" txn) ≡ ok a)
  unfolding admitted extract_transaction_amount or_missing amount_of
  amount_of-admitted txn k now amount default h =
      let (u, valid, h1) =
        bind_ok (faulty (validate A parts.schema parts.columns txn)) _ (k, now, amount) h in
      let (key, keyed, h2) =
        bind_ok (or_raise unhashable (parts.key (value_at parts.columns.entity txn))) _
          (k, now, amount) h1 in
      let (t, timed, h3) =
        bind_ok (faulty (to_float A parts.columns.time (value_at parts.columns.time txn))) _
          (k, now, amount) h2 in
      let (a, sized, h4) =
        bind_ok (faulty (to_float A parts.columns.amount (value_at parts.columns.amount txn))) _
          (k, now, amount) h3 in
      let read =
        subst (λ (c : Columns). to_float A c.amount (value_at c.amount txn) ≡ ok a) default
          (faulty_ok _ a sized) in
      (some a, rw read refl)

module _ {K X I S R : Type 0} (A : Arithmetic) (B : Backend K I S) (parts : Parts K X)
    (fields : Dict String Value → Option (Dict String Value)) (body : Dict String Value)
    (ms : Float) (s : S) (d : Option (Profile R × Monitor)) (g : Option Registry) where
  abbrev app : Option MetricsRegistry → App S R
  app m = app_with A B parts fields false body ms s d g m

  predict_parsed :
      (m : Option MetricsRegistry) (request : Dict String Value)
      → parse_request fields body ≡ ok request
      → predict A B parts fields body ms (app m) ≡ (
        Result.◌>>=◌ (scored A B parts fields false request ms s d g m).0 predict_response,
        (scored A B parts fields false request ms s d g m).1,
      )
  unfolding predict get_engine scored
  predict_parsed m request h = rw h (
      lifted (scored A B parts fields false request ms s d g m).0 predict_response
        (scored A B parts fields false request ms s d g m).1)

  -- The store after a prediction of an accepted request is the one that the engine's own call leaves,
  -- whether it returned or raised and whatever is observed; a refused body leaves the process as it was.
  pub predict_store :
      (m : Option MetricsRegistry)
      → ((request : Dict String Value) × (parse_request fields body ≡ ok request)
          × ((predict A B parts fields body ms (app m)).1.engine
              ≡ some (engine_run A B parts false request s).1))
        ⊎ ((x : ApiError) × (parse_request fields body ≡ err x)
            × (predict A B parts fields body ms (app m) ≡ (err x, app m)))
  unfolding predict get_engine
  predict_store m = elim (Result-cases (parse_request fields body)) [
    | inl (request, h) ↦ inl (
      request,
      h,
      ap (λ (k : Result ApiError PredictResponse × App S R). k.1.engine)
            (predict_parsed m request h)
          ∙ score_request_engine A B parts fields false request ms s d g m,
    )
    | inr (x, h) ↦ inr (x, h, rw h refl)
  ]

  -- With the default columns, and a bucket for each score that the model gives: the answer is the same
  -- with metrics as without, and so is the engine's store.
  pub predict_unobserved :
      (m : MetricsRegistry)
      → parts.columns ≡ default_columns
      → ((columns : List String) (row : Dict String Value) (f : Features) (x : Float)
          → parts.predict columns row f ≡ ok x
          → (l : String) × (bucket_label A x ≡ ok l))
      → ((predict A B parts fields body ms (app (some m))).0
          ≡ (predict A B parts fields body ms (app none)).0)
        × ((predict A B parts fields body ms (app (some m))).1.engine
            ≡ (predict A B parts fields body ms (app none)).1.engine)
  unfolding predict get_engine
  predict_unobserved m default buckets = elim (Result-cases (parse_request fields body)) [
    | inl (request, h) ↦
        rw (predict_parsed (some m) request h, predict_parsed none request h)
          (
            ap (λ r. Result.◌>>=◌ r predict_response) (same request),
            score_request_engine A B parts fields false request ms s d g (some m)
                ∙ sym (score_request_engine A B parts fields false request ms s d g none),
          )
    | inr (x, h) ↦ rw h (refl, refl)
  ]
    where
      same :
          (request : Dict String Value)
          → (scored A B parts fields false request ms s d g (some m)).0
            ≡ (scored A B parts fields false request ms s d g none).0
      same request = elim (Result-cases (engine_run A B parts false request s).0) [
        | inl (o, e) ↦
            let (columns, row, f, gives) =
              process_transaction-IsModelled A B parts false
                (build_full_transaction_dict (expected parts.schema) request) s o e in
            let (l, bucket) = buckets columns row f o.risk_score gives in
            let ((k, now, amount), admits) =
              admitted_of_ok A B parts false
                (build_full_transaction_dict (expected parts.schema) request) s o e in
            let (a, read) =
              amount_of-admitted A B parts
                (build_full_transaction_dict (expected parts.schema) request) k now amount default
                admits in
            score_request_on A B parts fields false request ms s d g o m l a e bucket read
            ∙ sym (score_request_off A B parts fields false request ms s d g o e)
        | inr (x, e) ↦
            score_request_err A B parts fields false request ms s d g x (some m) e
            ∙ sym (score_request_err A B parts fields false request ms s d g x none e)
      ]
