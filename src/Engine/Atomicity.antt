-- ===== src/Engine/Atomicity.antt =====
-- What a call of `process_transaction` answers and what it leaves in the store, on every path.
use real_time_risk_fraud_eng.Prelude.{
  ◌≡◌, refl, Bool, false, Option, some, String, inl, inr, ◌⊎◌, ap, ◌∙◌, sym,
}
use real_time_risk_fraud_eng.Prelude.Keys.{Hashable, Dict, ◌==◌, equal_refl}
use real_time_risk_fraud_eng.Result
use real_time_risk_fraud_eng.Result.{ok, err, Result-cases}
use real_time_risk_fraud_eng.Float.{Float, Arithmetic}
use real_time_risk_fraud_eng.Value.{Value}
use real_time_risk_fraud_eng.State.Entity.{EntityState, features_of, updated, read_prune}
use real_time_risk_fraud_eng.State.Backend.{Backend}
use real_time_risk_fraud_eng.State.Backend.Contract.{IsStore}
use real_time_risk_fraud_eng.State.Manager.{compute_features, update}
use real_time_risk_fraud_eng.State.Manager.Trace.{or_new}
use real_time_risk_fraud_eng.State.Manager.Simulation.{
  LeavesAt, compute_features_effect, update_effect, update_ok,
}
use real_time_risk_fraud_eng.Engine.{process_transaction, run_steps}
use real_time_risk_fraud_eng.Engine.Assess.{EngineError, Outcome, Parts, assess, admitted}

module _ {K X I S : Type 0} ⦃e : Hashable K⦄ (A : Arithmetic) (B : Backend K I S)
    (view : S → K → Option EntityState) (store : IsStore B view) (parts : Parts K X) where
  -- The answer as a function of the state before the call.
  abbrev pub answer : Bool → Dict String Value → S → Result.Result EngineError (Outcome X)
  answer explain txn s =
      Result.◌>>=◌ (admitted A parts txn)
        λ (k, now, amount). assess A parts explain txn (features_of A now amount (view s k))

  module _ (explain : Bool) (txn : Dict String Value) (k : K) (now amount : Float) (s : S) where
    -- The store after the read of the features, and after the update.
    abbrev after_read : S
    after_read = (compute_features A B k now amount s).1

    abbrev after_update : S
    after_update = (update A B k now amount after_read).1

    run_steps_ok :
        (o : Outcome X)
        → assess A parts explain txn (features_of A now amount (view s k)) ≡ ok o
        → run_steps A B parts explain txn (k, now, amount) s ≡ (ok o, after_update)
    unfolding run_steps
    run_steps_ok o h = rw (
      (compute_features_effect A B view store k now amount s).0,
      h,
      update_ok A B view store k now amount after_read,
    )

    run_steps_err :
        (x : EngineError)
        → assess A parts explain txn (features_of A now amount (view s k)) ≡ err x
        → run_steps A B parts explain txn (k, now, amount) s ≡ (err x, after_read)
    unfolding run_steps
    run_steps_err x h = rw ((compute_features_effect A B view store k now amount s).0, h)

  -- Over a store, what is answered is a function of the state before the call alone: the features
  -- come from the state of the transaction's entity in which the transaction itself is not
  -- counted yet.
  pub process_transaction-eq-answer :
      (explain : Bool) (txn : Dict String Value) (s : S)
      → (process_transaction A B parts explain txn s).0 ≡ answer explain txn s
  unfolding process_transaction
  process_transaction-eq-answer explain txn s = elim (Result-cases (admitted A parts txn)) [
    | inl ((k, now, amount), h) ↦ rw h (steps k now amount)
    | inr (x, h) ↦ rw h
  ]
    where
      steps :
          (k : K) (now amount : Float)
          → (run_steps A B parts explain txn (k, now, amount) s).0
            ≡ assess A parts explain txn (features_of A now amount (view s k))
      steps k now amount =
          elim (Result-cases (assess A parts explain txn (features_of A now amount (view s k)))) [
            | inl (o, h) ↦ rw (h, run_steps_ok explain txn k now amount s o h)
            | inr (x, h) ↦ rw (h, run_steps_err explain txn k now amount s x h)
          ]

  -- A transaction that is not admitted raises the error of its admission and leaves the store as
  -- it was.
  process_transaction_rejected :
      (explain : Bool) (txn : Dict String Value) (s : S) (x : EngineError)
      → admitted A parts txn ≡ err x
      → process_transaction A B parts explain txn s ≡ (err x, s)
  unfolding process_transaction
  process_transaction_rejected explain txn s x h = rw h

  module _ (explain : Bool) (txn : Dict String Value) (s : S) (k : K) (now amount : Float)
      (h : admitted A parts txn ≡ ok (k, now, amount)) where
    -- The call of an admitted transaction is its steps, and its answer the assessment's.
    steps_of :
        process_transaction A B parts explain txn s
        ≡ run_steps A B parts explain txn (k, now, amount) s
    unfolding process_transaction
    steps_of = rw h

    assess_of :
        (process_transaction A B parts explain txn s).0
        ≡ assess A parts explain txn (features_of A now amount (view s k))
    assess_of = process_transaction-eq-answer explain txn s ∙ rw h

    -- Over a store, none of whose operations raises, a call of an admitted transaction that raises (in the
    -- pipeline, the model, the explainer or the policy) records nothing: every entity has the state that it
    -- had, or that state without the times that the read of the features found expired. A backend that is
    -- unavailable is left out.
    pub process_transaction_failed :
        (x : EngineError)
        → (process_transaction A B parts explain txn s).0 ≡ err x
        → (j : K) → LeavesAt A B view store now s (process_transaction A B parts explain txn s).1 j
    process_transaction_failed x failed j =
        rw (steps_of, run_steps_err explain txn k now amount s x (sym assess_of ∙ failed))
          ((compute_features_effect A B view store k now amount s).1 j)

    -- Over a store, a call of an admitted transaction that returns has recorded it for its
    -- entity, once, on the state that the entity had before the call (perhaps without its expired
    -- times).
    pub process_transaction_records :
        (o : Outcome X)
        → (process_transaction A B parts explain txn s).0 ≡ ok o
        → let s' = (process_transaction A B parts explain txn s).1 in
          (view s' k ≡ some (updated A now amount (or_new (view s k))))
          ⊎ (view s' k ≡ some (updated A now amount (read_prune A now (or_new (view s k)))))
    process_transaction_records o done =
        let read = after_read explain txn k now amount s in
        let (f, left) = compute_features_effect A B view store k now amount s in
        rw
          (
            steps_of,
            run_steps_ok explain txn k now amount s o (sym assess_of ∙ done),
            update_effect A B view store k now amount read k,
            equal_refl k,
          )
          (elim (left k) [
            | inl same ↦ inl (ap (λ v. some (updated A now amount (or_new v))) same)
            | inr (y, found, pruned) ↦ inr (rw (pruned, found) (unfold or_new in refl))
          ])

    -- Over a store, a call of an admitted transaction that returns leaves every other entity's
    -- state as it was, perhaps without the times that the read found expired.
    process_transaction_others :
        (o : Outcome X)
        → (process_transaction A B parts explain txn s).0 ≡ ok o
        → (j : K) → (k == j) ≡ false
        → LeavesAt A B view store now s (process_transaction A B parts explain txn s).1 j
    process_transaction_others o done j other =
        let read = after_read explain txn k now amount s in
        let (f, left) = compute_features_effect A B view store k now amount s in
        rw (steps_of, run_steps_ok explain txn k now amount s o (sym assess_of ∙ done))
          (rw (update_effect A B view store k now amount read j, other) (left j))
