-- ===== src/Api.antt =====
-- The HTTP layer (src/api/): what the process holds, what a route may raise, and the calls of a route on
-- the engine and on the metrics. FastAPI, Starlette and Pydantic are not modelled; what the code relies
-- on is said where it is used.
pub mod Requests
pub mod Predict
pub mod Operations
pub mod Serve
pub mod Tests
use real_time_risk_fraud_eng.Prelude.{Bool, Option, none, some, ℕ}
use real_time_risk_fraud_eng.Result.{Result, ok, err}
use real_time_risk_fraud_eng.Exec.{Exec}
use real_time_risk_fraud_eng.Monitoring.Metrics.{MetricsRegistry, MetricsError}
use real_time_risk_fraud_eng.State.Backend.{StateError, unavailable, bad_key, overflow}
use real_time_risk_fraud_eng.Engine.Validation.{Fault, ValidationError, invalid, overflow}
use real_time_risk_fraud_eng.Engine.Assess.{
  EngineError, fault, policy_error, state_error, unhashable, external, a_runtime_error, other_class,
}
use real_time_risk_fraud_eng.Governance.Registry.{Registry}
use real_time_risk_fraud_eng.Drift.Monitor.{Profile, Monitor}

-- The exceptions by the classes that have handlers: `request_validation` is a
-- RequestValidationError, `http_error` an HTTPException, `unexpected` every class without a handler of
-- its own.
pub data ApiError : Type 0 where
  request_validation backend_unavailable runtime_error unexpected : ApiError
  transaction_validation : ValidationError → ApiError
  http_error : ℕ → ApiError

unfoldable pub of_fault : Fault → ApiError
of_fault (invalid e) = transaction_validation e
of_fault overflow = unexpected

unfoldable pub of_state_error : StateError → ApiError
of_state_error unavailable = backend_unavailable
of_state_error bad_key = unexpected
of_state_error overflow = unexpected

-- The class of what the engine raises.
unfoldable pub of_engine_error : EngineError → ApiError
unfolding of_fault of_state_error
of_engine_error (fault e) = of_fault e
of_engine_error (policy_error e) = unexpected
of_engine_error (state_error e) = of_state_error e
of_engine_error unhashable = unexpected
of_engine_error (external a_runtime_error) = runtime_error
of_engine_error (external other_class) = unexpected

-- The singletons of `dependencies.py`. The engine is given by its store, the other parts of it are
-- fixed; the drift monitor comes with its reference profile.
pub record App (S R : Type 0) : Type 0 where
  pub engine : Option S
  pub metrics : Option MetricsRegistry
  pub drift : Option (Profile R × Monitor)
  pub registry : Option Registry

unfoldable pub or_error : {X : Type 0} → ApiError → Option X → Result ApiError X
or_error e none = err e
or_error e (some x) = ok x

-- What the engine returned or raised, as seen by a route.
unfoldable pub from_engine : {X : Type 0} → Result EngineError X → Result ApiError X
from_engine (ok x) = ok x
from_engine (err e) = err (of_engine_error e)

-- A recording that raises raises an exception without a handler of its own.
unfoldable pub from_metrics : Result MetricsError (Unit {0}) → Result ApiError (Unit {0})
from_metrics (ok x) = ok x
from_metrics (err e) = err unexpected

module _ {S R : Type 0} where
  -- `get_engine`
  unfoldable pub get_engine : Exec ApiError (App S R) S
  unfolding or_error
  get_engine app = (or_error runtime_error app.engine, app)

  -- `get_metrics_registry`
  unfoldable pub get_metrics_registry : Exec ApiError (App S R) MetricsRegistry
  unfolding or_error
  get_metrics_registry app = (or_error runtime_error app.metrics, app)

  unfoldable pub recorded_in :
      Exec MetricsError MetricsRegistry (Unit {0})
      → Option MetricsRegistry
      → Exec ApiError (App S R) (Unit {0})
  unfolding from_metrics
  recorded_in m none app = (ok tt, app)
  recorded_in m (some r) app =
      let (x, r') = m r in (from_metrics x, record app { metrics = some r' })

  -- `if metrics is not None: metrics.…`
  unfoldable pub observe :
      Exec MetricsError MetricsRegistry (Unit {0}) → Exec ApiError (App S R) (Unit {0})
  unfolding recorded_in
  observe m app = recorded_in m app.metrics app

  unfoldable pub run_on : {X : Type 0} → Exec EngineError S X → Option S → Exec ApiError (App S R) X
  unfolding from_engine
  run_on m none app = (err runtime_error, app)
  run_on m (some s) app = let (x, s') = m s in (from_engine x, record app { engine = some s' })

  -- A method of the engine.
  unfoldable pub call_engine : {X : Type 0} → Exec EngineError S X → Exec ApiError (App S R) X
  unfolding run_on
  call_engine m app = run_on m app.engine app
