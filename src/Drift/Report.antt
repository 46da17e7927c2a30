-- ===== src/Drift/Report.antt =====
-- Severities (src/drift/detectors.py) and the report (src/drift/report.py). The statistics behind a
-- result (NumPy, SciPy) are left to the caller; the explanation text is kept up to its label.
pub mod Maximum
use real_time_risk_fraud_eng.Prelude.{
  ℕ, zero, suc, ◌+◌, Bool, true, false, String, Option, none, some, List, [], ◌∷◌, ◌++◌, map, keep,
  if◌then◌else◌, leb, eqb, ltb,
}
use real_time_risk_fraud_eng.Float.{Float, dyadic, lt}

-- `SEVERITY_ORDER`
pub data Severity : Type 0 where
  no_significant_drift low_drift moderate_drift high_drift : Severity

-- SEVERITY_ORDER.index(s)
abbrev pub index : Severity → ℕ
index no_significant_drift = 0
index low_drift = 1
index moderate_drift = 2
index high_drift = 3

-- SEVERITY_ORDER[i]
abbrev pub severity_at : ℕ → Severity
severity_at zero = no_significant_drift
severity_at (suc zero) = low_drift
severity_at (suc (suc zero)) = moderate_drift
severity_at (suc (suc (suc n))) = high_drift

-- `severity_from_psi`, with `PSI_SEVERITY_THRESHOLDS` 0.10, 0.20 and 0.30
unfoldable pub severity_from_psi : Float → Severity
severity_from_psi psi =
    if lt psi (dyadic 3602879701896397 55)
    then no_significant_drift
    else if lt psi (dyadic 3602879701896397 54)
    then low_drift
    else if lt psi (dyadic 5404319552844595 54)
    then moderate_drift
    else high_drift

pub record Named : Type 0 where
  pub name : String
  pub severity : Severity

pub data Explanation : Type 0 where
  nothing_monitored no_drift : Explanation
  driven_by : Severity → List String → Explanation

pub record Overall : Type 0 where
  pub severity : Severity
  pub explanation : Explanation
  pub contributing : List String

-- max(SEVERITY_ORDER.index(r["severity"]) for r in named_results), of a list with a first element
unfoldable pub max_index : ℕ → List Named → ℕ
max_index m [] = m
max_index m (r ∷ rs) = max_index (if ltb m (index r.severity) then index r.severity else m) rs

unfoldable pub explained : Severity → List String → Explanation
explained no_significant_drift names = no_drift
explained low_drift names = driven_by low_drift names
explained moderate_drift names = driven_by moderate_drift names
explained high_drift names = driven_by high_drift names

-- [r["name"] for r in named_results if r["severity"] == s]
unfoldable pub names_at : Severity → List Named → List String
names_at s rs = map (λ r. r.name) (keep (λ r. eqb (index r.severity) (index s)) rs)

-- `aggregate_overall_severity`
unfoldable pub aggregate_overall_severity : List Named → Overall
aggregate_overall_severity [] = record {
  severity = no_significant_drift;
  explanation = nothing_monitored;
  contributing = [];
}
aggregate_overall_severity (r ∷ rs) =
    let overall = severity_at (max_index (index r.severity) rs) in
    let names = names_at overall (r ∷ rs) in
    record { severity = overall; explanation = explained overall names; contributing = names }

pub record DriftReport (W : Type 0) : Type 0 where
  pub timestamp : String
  pub batch_size : ℕ
  pub low_confidence : Bool
  pub warnings : List W
  pub feature_results : List Named
  pub risk_score_result : Option Severity
  pub decision_result : Option Severity
  pub overall_severity : Severity
  pub overall_explanation : Explanation
  pub contributing_signals : List String

unfoldable pub named_if : String → Option Severity → List Named
named_if name none = []
named_if name (some s) = record { name = name; severity = s } ∷ []

-- `build_drift_report`
unfoldable pub build_drift_report :
    {W : Type 0}
    → ℕ
    → List Named
    → Option Severity
    → Option Severity
    → Bool
    → List W
    → String
    → DriftReport W
unfolding named_if
build_drift_report n features risk_score decision low warnings now =
    let overall =
      aggregate_overall_severity (
        features
        ++ named_if "risk_score" risk_score
        ++ named_if "decision_distribution" decision) in
    record {
      timestamp = now;
      batch_size = n;
      low_confidence = low;
      warnings = warnings;
      feature_results = features;
      risk_score_result = risk_score;
      decision_result = decision;
      overall_severity = overall.severity;
      overall_explanation = overall.explanation;
      contributing_signals = overall.contributing;
    }
