-- ===== src/Engine.antt =====
-- The real-time engine (src/engine/risk_engine.py): `process_transaction` over a backend.
pub mod Parity
pub mod Validation
pub mod Assess
pub mod Answers
pub mod Atomicity
pub mod Tests
use real_time_risk_fraud_eng.Prelude.{Bool, String}
use real_time_risk_fraud_eng.Prelude.Keys.{Dict}
use real_time_risk_fraud_eng.Result.{Result, ok, err}
use real_time_risk_fraud_eng.Exec.{Exec, pure, lift, ◌>>=◌, ◌>>◌}
use real_time_risk_fraud_eng.Float.{Float, Arithmetic}
use real_time_risk_fraud_eng.Value.{Value}
use real_time_risk_fraud_eng.State.Backend.{Backend, StateError}
use real_time_risk_fraud_eng.State.Manager.{compute_features, update, reset}
use Assess.{EngineError, state_error, Outcome, Parts, assess, admitted}

unfoldable pub in_state : {A : Type 0} → Result StateError A → Result EngineError A
in_state (ok a) = ok a
in_state (err e) = err (state_error e)

-- A call of the state manager.
abbrev pub stored : {A S : Type 0} → Exec StateError S A → Exec EngineError S A
stored m s = let (r, s') = m s in (in_state r, s')

module _ {K X I S : Type 0} (A : Arithmetic) (B : Backend K I S) (parts : Parts K X) where
  -- `reset_state`
  unfoldable pub reset_state : Exec EngineError S (Unit {0})
  unfolding in_state
  reset_state = stored (reset A B)

  -- Steps 3 to 10 for an admitted transaction: the update comes last.
  unfoldable pub run_steps :
      Bool → Dict String Value → K × Float × Float → Exec EngineError S (Outcome X)
  unfolding in_state
  run_steps explain txn (k, now, amount) = do
    f ← stored (compute_features A B k now amount)
    o ← lift (assess A parts explain txn f)
    stored (update A B k now amount)
    pure o

  -- `process_transaction`
  unfoldable pub process_transaction : Bool → Dict String Value → Exec EngineError S (Outcome X)
  process_transaction explain txn = do
    values ← lift (admitted A parts txn)
    run_steps explain txn values
