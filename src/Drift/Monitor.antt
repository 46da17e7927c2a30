-- ===== src/Drift/Monitor.antt =====
-- `DriftMonitor` (src/drift/monitor.py). The detectors are parameters: from a feature's reference entry
-- and its column, or from the risk scores or the decisions, they give a severity (and the categories
-- that are new). The lock makes the update of the counters one step.
use real_time_risk_fraud_eng.Prelude.{
  ℕ, ◌+◌, ◌≡◌, String, Option, none, some, List, [], ◌∷◌, ◌++◌, if◌then◌else◌, ltb, ap, ◌∙◌, inl,
  inr,
}
use real_time_risk_fraud_eng.Prelude.Keys.{Dict, lookup, str_key, int_key}
use real_time_risk_fraud_eng.Result
use real_time_risk_fraud_eng.Result.{Result, ok, err, Result-cases}
use real_time_risk_fraud_eng.Monitoring.Metrics.{bump}
use real_time_risk_fraud_eng.Monitoring.Metrics.Totals.{total, total-bump}
use real_time_risk_fraud_eng.Drift.Report.{
  Severity, index, Named, DriftReport, Explanation, build_drift_report,
}

-- The keys of `reference_profile` that the monitor reads: a missing section is empty, but the two last
-- ones are looked up with `[]`.
pub record Profile (R : Type 0) : Type 0 where
  pub numeric : Dict String R
  pub categorical : Dict String R
  pub behavioral : Dict String R
  pub risk_score : Option R
  pub decision : Option R

pub record Batch (C : Type 0) : Type 0 where
  pub size : ℕ
  pub columns : Dict String C

pub data Warning : Type 0 where
  small_batch : ℕ → Warning
  new_values : String → List String → Warning

pub data DriftError : Type 0 where
  key_error : DriftError

pub record Detectors (R C : Type 0) : Type 0 where
  pub numeric : R → C → Severity
  pub categorical : R → C → Severity × List String

-- `severity_counts` is keyed by the place of a severity in the order.
pub record Monitor : Type 0 where
  pub batches_analyzed : ℕ
  pub severity_counts : Dict ℕ ℕ
  pub latest_report : Option (DriftReport Warning)

abbrev pub fresh : Monitor
fresh = record { batches_analyzed = 0; severity_counts = []; latest_report = none }

-- MIN_BATCH_SIZE
abbrev pub min_batch_size : ℕ
min_batch_size = 30

module _ {R C : Type 0} (detect : Detectors R C) where
  numeric_result : String → R → Option C → List Named
  numeric_result name entry none = []
  numeric_result name entry (some column) =
      record { name = name; severity = detect.numeric entry column } ∷ []

  -- The loop over the `numeric` or the `behavioral` section.
  unfoldable pub numeric_results : Dict String R → Batch C → List Named
  unfolding numeric_result
  numeric_results [] batch = []
  numeric_results ((name, entry) ∷ rest) batch =
      numeric_result name entry (lookup name batch.columns) ++ numeric_results rest batch

  warned : String → List String → List Warning
  warned name [] = []
  warned name (c ∷ cs) = new_values name (c ∷ cs) ∷ []

  categorical_result : String → R → Option C → List Named × List Warning
  unfolding warned
  categorical_result name entry none = ([], [])
  categorical_result name entry (some column) =
      let (s, fresh_values) = detect.categorical entry column in
      (record { name = name; severity = s } ∷ [], warned name fresh_values)

  -- The loop over the `categorical` section.
  unfoldable pub categorical_results : Dict String R → Batch C → List Named × List Warning
  unfolding categorical_result
  categorical_results [] batch = ([], [])
  categorical_results ((name, entry) ∷ rest) batch =
      let (results, warnings) = categorical_result name entry (lookup name batch.columns) in
      let (more, others) = categorical_results rest batch in (results ++ more, warnings ++ others)

  unfoldable pub on_section :
      (R → C → Severity) → Option R → Option C → Result DriftError (Option Severity)
  on_section run entry none = ok none
  on_section run none (some values) = err key_error
  on_section run (some entry) (some values) = ok (some (run entry values))

  unfoldable pub small : ℕ → List Warning
  small n = if ltb n min_batch_size then small_batch n ∷ [] else []

  -- The report that `analyze_batch` builds before it takes the lock.
  unfoldable pub report_of :
      Profile R → Batch C → Option C → Option C → String → Result DriftError (DriftReport Warning)
  report_of profile batch risk_scores decisions now =
      let (categorical, warnings) = categorical_results profile.categorical batch in
      Result.◌>>=◌ (on_section detect.numeric profile.risk_score risk_scores) λ risk_score.
        Result.◌>>=◌ (on_section (λ r c. (detect.categorical r c).0) profile.decision decisions)
          λ decision. ok (
            build_drift_report batch.size
              (numeric_results profile.numeric batch
                ++ categorical
                ++ numeric_results profile.behavioral batch)
              risk_score decision (ltb batch.size min_batch_size) (small batch.size ++ warnings)
              now)

  recorded :
      Result DriftError (DriftReport Warning)
      → Monitor
      → Result DriftError (DriftReport Warning) × Monitor
  recorded (err e) m = (err e, m)
  recorded (ok report) m = (
    ok report,
    record {
      batches_analyzed = m.batches_analyzed + 1;
      severity_counts = bump (index report.overall_severity) m.severity_counts;
      latest_report = some report;
    },
  )

  -- `analyze_batch`
  unfoldable pub analyze_batch :
      Profile R
      → Batch C
      → Option C
      → Option C
      → String
      → Monitor
      → Result DriftError (DriftReport Warning) × Monitor
  unfolding recorded
  analyze_batch profile batch risk_scores decisions now m =
      recorded (report_of profile batch risk_scores decisions now) m

  -- If the counts by severity add up to the number of batches analysed, they still do after an
  -- analysis, whether it returns or raises.
  analyze_batch_counts :
      (profile : Profile R) (batch : Batch C) (risk_scores decisions : Option C) (now : String)
      (m : Monitor)
      → total m.severity_counts ≡ m.batches_analyzed
      → total (analyze_batch profile batch risk_scores decisions now m).1.severity_counts
        ≡ (analyze_batch profile batch risk_scores decisions now m).1.batches_analyzed
  unfolding analyze_batch
  analyze_batch_counts profile batch risk_scores decisions now m h =
      elim (Result-cases (report_of profile batch risk_scores decisions now)) [
        | inl (report, e) ↦
            rw e (total-bump (index report.overall_severity) m.severity_counts ∙ ap (λ n. n + 1) h)
        | inr (x, e) ↦ rw e h
      ]

-- The dict of `DriftMonitor.summary`.
pub record Summary : Type 0 where
  pub batches_analyzed : ℕ
  pub severity_counts : Dict ℕ ℕ
  pub latest_status : Option Severity
  pub latest_timestamp : Option String
  pub latest_explanation : Option Explanation

of_latest : {A : Type 0} → (DriftReport Warning → A) → Option (DriftReport Warning) → Option A
of_latest f none = none
of_latest f (some report) = some (f report)

-- `summary`
unfoldable pub summary : Monitor → Summary
unfolding of_latest
summary m = record {
  batches_analyzed = m.batches_analyzed;
  severity_counts = m.severity_counts;
  latest_status = of_latest (λ r. r.overall_severity) m.latest_report;
  latest_timestamp = of_latest (λ r. r.timestamp) m.latest_report;
  latest_explanation = of_latest (λ r. r.overall_explanation) m.latest_report;
}
