-- ===== src/Lib.antt =====
-- Verification library of the real-time risk decision engine.
--
-- The program scores card transactions. A transaction reaches the engine through HTTP or through a
-- stream; the engine reads the behavioural statistics of the transaction's card, asks a model for a
-- risk score, applies a policy of two thresholds, and records the transaction. Governance decides
-- which model is the champion; monitoring and drift observe.
--
-- Parts and files (a path names the source from the repository's root):
--   Decision/Policy        src/decision/policy.py: `construct` is `__post_init__`, then `decide`,
--                          `to_dict`, `from_dict`; Policy/Classify has the documented rule
--   Decision/Evaluation    src/decision/evaluation.py: `evaluate_policy`
--   Decision/Threshold     src/decision/threshold_selection.py; Threshold/Search is about the block
--                          fraction, Threshold/Build about the policy
--   Decision/Comparison    src/decision/comparison.py: `compare_policy_to_fixed_budget`
--   State/Entity           src/engine/state.py: one entity's statistics; `features_of` and `updated`
--                          are what `compute_features` and `update` compute
--   State/Backend          src/engine/state_backend.py: the interface `Backend`, `in_memory`, `redis`;
--                          Backend/Contract says what a client of a backend relies on
--   State/Manager          src/engine/state.py: `BehavioralStateManager` over a backend;
--                          Manager/Trace is the specification, Manager/Simulation the refinement,
--                          Manager/Bulk the warm start
--   Engine                 src/engine/risk_engine.py: Engine/Validation is `_validate_transaction`,
--                          Engine/Assess the steps without state, `process_transaction` the whole call
--   Engine/Parity          src/engine/parity.py: the reports that compare the engine with offline results;
--                          Parity/Verdicts is about their counts
--   Api/Requests           src/api/schemas.py and `build_full_transaction_dict` of src/api/dependencies.py
--   Api/Predict            src/api/main.py: `predict`, `predict_explain`; Predict/Interference says that
--                          observing changes nothing, Predict/Explaining is about a missing explainer
--   Api/Operations         src/api/main.py: the other routes
--   Api/Serve              src/api/main.py: the exception handlers, with src/monitoring/middleware.py
--                          around them; `serve_all` is a sequence of calls
--   Streaming/Handler      src/streaming/fraud_processing_consumer.py: `handle` is `__call__`
--   Streaming/Consumer     src/streaming/kafka_client.py: `process_one` is `_process_one`; Consumer/Run
--                          is the loop `run`
--   Streaming/Broker       src/streaming/fake_broker.py
--   Governance/Registry    src/governance/registry.py and the validation in src/governance/metadata.py
--   Governance/Gates       src/governance/gates.py, src/governance/compatibility.py
--   Monitoring/Metrics     src/monitoring/metrics.py
--   Monitoring/DataQuality src/monitoring/data_quality.py
--   Evaluation/Operational src/evaluation/operational_eval.py; Operational/Ranking is about the rows that
--                          a budget selects
--   Features/Behavioral    src/features/behavioral.py; Behavioral/Groups is what pandas documents,
--                          Behavioral/Parity the agreement with State/Entity
--   Data/Split             src/data/split.py; Split/Partition is about both of its functions
--   Drift/Report           src/drift/report.py and the severities of src/drift/detectors.py
--   Drift/Monitor          src/drift/monitor.py
--   Drift/Categorical      the categorical profile of src/drift/reference.py and its comparison in
--                          src/drift/detectors.py
--   Prelude, Result, Exec, Float, Value: shared names and lemmas, errors as values, methods that
--                          change an object and may raise, doubles, and Python's scalars
--
-- How the parts interact: a route of the HTTP API calls the engine and records in the metrics before
-- and after it; the middleware records every request. The consumer calls the handler for each
-- message, the handler calls the engine, the engine calls the state manager, and that calls a
-- backend. Each caller takes what it calls as a parameter or through the interface `Backend`, whose
-- contract is `IsStore`.
--
-- Numbers: a double is nan, an infinity or an integer number of units of 2^-1074, so comparisons and
-- the code's literals are exact; -0.0 and 0.0 are one value. Rounded operations are a parameter,
-- `Arithmetic`; a theorem that needs more assumes that subtraction of seconds is monotone. Columns of
-- pandas are lists, elementwise arithmetic on them is `map` and `zip_with`. Counters
-- are natural numbers, as Python's integers do not wrap around; a counter as a float is its value.
--
-- Fuel: only `run_until_empty` has fuel, one unit a round. It needs one round more than there are
-- messages. All other loops are structural.
--
-- State and errors: a method is a function from the object's state to a result and the state after
-- it, also where it raises. A lock makes a method one step. The in-memory backend shares its objects
-- with the caller: `mutated` is the effect of changing such an object on the store.
--
-- Not modelled: third-party code (the models, pandas, NumPy, SciPy, Kafka and Redis clients, JSON), which
-- is a parameter where the code uses it; wall-clock times, logging and texts of messages; the registry's
-- file; the start-up of the HTTP service, training, scripts and the dashboard.
pub mod Prelude
pub mod Result
pub mod Exec
pub mod Float
pub mod Value
pub mod Decision
pub mod State
pub mod Engine
pub mod Api
pub mod Streaming
pub mod Governance
pub mod Monitoring
pub mod Drift
pub mod Evaluation
pub mod Features
pub mod Data
