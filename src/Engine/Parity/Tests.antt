-- ===== src/Engine/Parity/Tests.antt =====
-- Two online results without history: the first one agrees with its offline row, the second one has none.
use real_time_risk_fraud_eng.Prelude.{
  ℕ, ◌+◌, ◌≤◌, ◌≡◌, ◌↔◌, refl, String, List, [], ◌∷◌, length, count, is_some,
}
use real_time_risk_fraud_eng.Prelude.Keys.{Dict, lookup, str_key, int_key}
use real_time_risk_fraud_eng.Result.{ok}
use real_time_risk_fraud_eng.Float.{Float, zero_float, one_float, nan, is_nan}
use real_time_risk_fraud_eng.Float.Exact.{exact_arithmetic}
use real_time_risk_fraud_eng.Decision.Policy.{Decision, approve, block}
use real_time_risk_fraud_eng.Engine.Parity.{
  OnlineResult, FeatureReport, not_found, behavioral_feature_names, column_of, values_match,
  compare_features, counted, compare_transaction, compare_all, validate_behavioral_feature_parity,
  validate_decision_parity,
}
use real_time_risk_fraud_eng.Engine.Parity.Verdicts.{
  validate_behavioral_feature_parity_verdict, validate_decision_parity_counts,
}

unfoldable constant_row : List String → Dict String Float
constant_row [] = []
constant_row (name ∷ names) = (name, nan) ∷ constant_row names

abbrev result : ℕ → OnlineResult ℕ
result i = record {
  transaction_id = i;
  behavioral_features = [];
  risk_score = one_float;
  decision = block;
}

abbrev results : List (OnlineResult ℕ)
results = result 1 ∷ result 2 ∷ []

abbrev offline_rows : Dict ℕ (Dict String Float)
offline_rows = (1, constant_row behavioral_feature_names) ∷ []

abbrev report : FeatureReport ℕ
report = record {
  n_features_compared = 12;
  n_transactions_fully_matching = 1;
  mismatches = not_found 2 ∷ [];
  max_abs_diff = zero_float;
}

reported :
    validate_behavioral_feature_parity exact_arithmetic zero_float offline_rows results ≡ ok report
unfolding validate_behavioral_feature_parity compare_all compare_transaction compare_features
    counted column_of values_match constant_row lookup is_nan
reported = refl

validate_behavioral_feature_parity_verdict_example :
    ((length report.mismatches ≡ 0) ↔ (report.n_transactions_fully_matching ≡ 2))
    × (report.n_transactions_fully_matching ≤ 2)
validate_behavioral_feature_parity_verdict_example =
    validate_behavioral_feature_parity_verdict exact_arithmetic zero_float offline_rows results
      report reported

abbrev offline_decisions : Dict ℕ Decision
offline_decisions = (1, approve) ∷ []

validate_decision_parity_counts_example :
    let r = validate_decision_parity offline_decisions results in
    (r.n_matching + length r.mismatches ≡ r.n_compared)
    × (r.n_compared ≡ count (λ o. is_some (lookup o.transaction_id offline_decisions)) results)
validate_decision_parity_counts_example = validate_decision_parity_counts offline_decisions results
