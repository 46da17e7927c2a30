-- ===== src/Api/Operations.antt =====
-- The routes beside the predictions (src/api/main.py). The MLflow entry of the governance summary is left
-- out, and a batch comes as the columns that pandas makes of its records.
use real_time_risk_fraud_eng.Prelude.{
  Bool, true, false, String, Option, none, some, List, [], ◌∷◌, is_some, eqb, if◌then◌else◌,
}
use real_time_risk_fraud_eng.Prelude.Keys.{lookup, erase, str_key}
use real_time_risk_fraud_eng.Result.{Result, ok, err}
use real_time_risk_fraud_eng.Exec.{Exec, pure, gets, ◌>>=◌, ◌>>◌}
use real_time_risk_fraud_eng.Float.{Arithmetic}
use real_time_risk_fraud_eng.Value.{Number}
use real_time_risk_fraud_eng.Decision.Policy.{Policy, Decision, approve, review, block}
use real_time_risk_fraud_eng.State.Backend.{Backend}
use real_time_risk_fraud_eng.Engine.{reset_state}
use real_time_risk_fraud_eng.Engine.Assess.{Parts}
use real_time_risk_fraud_eng.Monitoring.Metrics.Snapshot.{Snapshot, snapshot}
use real_time_risk_fraud_eng.Drift.Report.{DriftReport}
use real_time_risk_fraud_eng.Drift.Monitor.{
  Profile, Batch, Warning, DriftError, Detectors, Monitor, Summary as MonitorSummary, summary,
  analyze_batch,
}
use real_time_risk_fraud_eng.Governance.Registry.{Registry, RegistryError}
use real_time_risk_fraud_eng.Governance.Registry.Summary
use real_time_risk_fraud_eng.Governance.Registry.Summary.{Summary}
use real_time_risk_fraud_eng.Api.{
  App, ApiError, http_error, unexpected, get_engine, get_metrics_registry, call_engine,
}

pub record HealthResponse : Type 0 where
  pub status : String
  pub model_loaded : Bool
  pub policy_loaded : Bool

-- The versions and the model's type are constants.
pub record MetadataResponse : Type 0 where
  pub policy_name : String
  pub policy_version : String
  pub supported_decisions : List Decision
  pub approve_threshold : Number
  pub block_threshold : Number

-- An engine has its model and its policy from the start.
unfoldable pub health_of : Bool → HealthResponse
health_of true = record { status = "ok"; model_loaded = true; policy_loaded = true }
health_of false = record { status = "degraded"; model_loaded = false; policy_loaded = false }

unfoldable pub metadata_of : Policy → MetadataResponse
metadata_of p = record {
  policy_name = p.name;
  policy_version = p.name;
  supported_decisions = approve ∷ review ∷ block ∷ [];
  approve_threshold = p.approve_at;
  block_threshold = p.block_at;
}

unfoldable pub from_drift : {X : Type 0} → Result DriftError X → Result ApiError X
from_drift (ok x) = ok x
from_drift (err e) = err unexpected

unfoldable pub available : Result RegistryError Summary → Result ApiError (Option Summary)
available (ok s) = ok (some s)
available (err e) = err unexpected

module _ {S R : Type 0} where
  -- `health`, which asks for no engine
  unfoldable pub health : Exec ApiError (App S R) HealthResponse
  unfolding health_of
  health = gets (λ app. health_of (is_some app.engine))

  -- `metrics_endpoint`, before the text is made of it, and `monitoring_summary`
  unfoldable pub monitoring_summary : Arithmetic → Exec ApiError (App S R) Snapshot
  monitoring_summary A = do m ← get_metrics_registry; pure (snapshot A m)

  -- `drift_summary`
  unfoldable pub drift_summary : Exec ApiError (App S R) (Option MonitorSummary)
  drift_summary =
      gets (λ app. elim app.drift [ none ↦ none | some (profile, m) ↦ some (summary m) ])

  -- registry.summary() on the shared registry: the process keeps the registry that the call leaves.
  unfoldable pub registry_summary : Option Registry → Exec ApiError (App S R) (Option Summary)
  unfolding available
  registry_summary none app = (ok none, app)
  registry_summary (some r) app =
      let (x, r') = Summary.summary r in (available x, record app { registry = some r' })

  -- `model_governance_summary`
  unfoldable pub model_governance_summary : Exec ApiError (App S R) (Option Summary)
  unfolding registry_summary
  model_governance_summary app = registry_summary app.registry app

module _ {K X I S R : Type 0} (A : Arithmetic) (B : Backend K I S) (parts : Parts K X) where
  -- `metadata`
  unfoldable pub metadata : Exec ApiError (App S R) MetadataResponse
  metadata = do get_engine; pure (metadata_of parts.policy)

  -- `dev_reset_state` with `reset_engine_state`
  unfoldable pub dev_reset_state : Exec ApiError (App S R) (Unit {0})
  dev_reset_state app = elim app.engine [
    | none ↦ (ok tt, app)
    | some s ↦ call_engine (reset_state A B parts) app
  ]

module _ {S R C : Type 0} (detect : Detectors R C) where
  unfoldable pub analyzed :
      Batch C
      → String
      → Option (Profile R × Monitor)
      → Exec ApiError (App S R) (DriftReport Warning)
  unfolding from_drift
  analyzed batch now none app = (err (http_error 503), app)
  analyzed batch now (some (profile, m)) app =
      if eqb batch.size 0
      then (err (http_error 422), app)
      else (let (x, m') =
            analyze_batch detect profile
              (record batch { columns = erase "decision" (erase "risk_score" batch.columns) })
              (lookup "risk_score" batch.columns) (lookup "decision" batch.columns) now m in
          (from_drift x, record app { drift = some (profile, m') }))

  -- `drift_analyze`
  unfoldable pub drift_analyze : Batch C → String → Exec ApiError (App S R) (DriftReport Warning)
  unfolding analyzed
  drift_analyze batch now app = analyzed batch now app.drift app
