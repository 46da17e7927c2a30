-- ===== src/Monitoring/Metrics/Tests.antt =====
-- Recordings of a small service.
use real_time_risk_fraud_eng.Prelude.{◌≡◌, refl, none, List, ◌∷◌, [], All, arith}
use real_time_risk_fraud_eng.Result.{ok}
use real_time_risk_fraud_eng.Float.{zero_float, scale}
use real_time_risk_fraud_eng.Float.Exact.{exact_arithmetic}
use real_time_risk_fraud_eng.Monitoring.Metrics.{empty, bucket_label}
use real_time_risk_fraud_eng.Monitoring.Metrics.Consistency.{
  Recording, request, attempt, success, streaming, IsScored, IsConsistent, after_all,
  after_all-IsConsistent,
}

abbrev recordings : List Recording
recordings =
    request "/predict" 200 zero_float
    ∷ attempt
    ∷ success "APPROVE" zero_float zero_float none
    ∷ streaming "processed"
    ∷ []

zero_bucket : bucket_label exact_arithmetic zero_float ≡ ok "0.0-0.1"
unfolding bucket_label zero_float scale
zero_bucket = refl

recordings-IsScored : All (IsScored exact_arithmetic) recordings
recordings-IsScored = (tt, (tt, (("0.0-0.1", zero_bucket), (tt, tt))))

empty-IsConsistent : IsConsistent empty
empty-IsConsistent = record {
  endpoints = refl;
  classes = refl;
  timed_requests = refl;
  timed_endpoints = refl;
  scored = refl;
  timed_predictions = refl;
  buckets = refl;
  decided = omega arith;
  amounts = omega arith;
  failures = refl;
  lookups = omega arith;
}

after_all-IsConsistent_example : IsConsistent (after_all exact_arithmetic recordings empty)
after_all-IsConsistent_example =
    after_all-IsConsistent exact_arithmetic recordings empty recordings-IsScored empty-IsConsistent
