-- ===== src/Drift/Tests.antt =====
-- A batch of two features.
use real_time_risk_fraud_eng.Prelude.{◌≡◌, ◌≤◌, none, some, ◌∷◌, [], true, All, ℕ, any, eqb, ◌&&◌}
use real_time_risk_fraud_eng.Prelude.Keys.{◌==◌, str_key}
use real_time_risk_fraud_eng.Prelude.Distinct.{elem}
use real_time_risk_fraud_eng.Drift.Report.{
  low_drift, high_drift, index, Named, aggregate_overall_severity,
}
use real_time_risk_fraud_eng.Drift.Report.Maximum.{aggregate_overall_severity-max}
use real_time_risk_fraud_eng.Drift.Monitor.{Detectors, Profile, Batch}

abbrev steady : Named
steady = record { name = "amount"; severity = low_drift }

abbrev moved : Named
moved = record { name = "card"; severity = high_drift }

aggregate_overall_severity-max_example :
    let o = aggregate_overall_severity (steady ∷ moved ∷ []) in
    All (λ x. index x.severity ≤ index o.severity) (steady ∷ moved ∷ [])
    × (any (λ x. eqb (index x.severity) (index o.severity)) (steady ∷ moved ∷ []) ≡ true)
    × (elem "card" o.contributing
        ≡ any
            (λ x. x.name == "card" && eqb (index x.severity) (index o.severity))
            (steady ∷ moved ∷ []))
aggregate_overall_severity-max_example = aggregate_overall_severity-max steady (moved ∷ []) "card"

abbrev detect : Detectors ℕ ℕ
detect = record { numeric = λ r c. high_drift; categorical = λ r c. (low_drift, "new" ∷ []) }

abbrev profile : Profile ℕ
profile = record {
  numeric = ("amount", 1) ∷ [];
  categorical = ("card", 2) ∷ [];
  behavioral = [];
  risk_score = some 3;
  decision = none;
}

abbrev batch : Batch ℕ
batch = record { size = 20; columns = ("amount", 4) ∷ ("card", 5) ∷ [] }
