-- ===== src/Monitoring/DataQuality.antt =====
-- src/monitoring/data_quality.py: signals read from a transaction before it is recorded.
use real_time_risk_fraud_eng.Prelude.{ℕ, not, ◌&&◌, String, Option, none, some, List, any, count}
use real_time_risk_fraud_eng.Prelude.Keys.{Dict, ◌==◌, str_key}
use real_time_risk_fraud_eng.Result.{Result, ok, err}
use real_time_risk_fraud_eng.Float.{Float, Arithmetic}
use real_time_risk_fraud_eng.Value.{Value}
use real_time_risk_fraud_eng.Engine.Validation.{
  Fault, invalid, overflow, to_float, value_at, is_null,
}

unfoldable pub or_missing : Result Fault Float → Result Fault (Option Float)
or_missing (ok x) = ok (some x)
or_missing (err (invalid e)) = ok none
or_missing (err overflow) = err overflow

module _ (A : Arithmetic) where
  -- `extract_transaction_amount`: an OverflowError is not caught.
  unfoldable pub extract_transaction_amount :
      String → Dict String Value → Result Fault (Option Float)
  unfolding or_missing
  extract_transaction_amount amount_col txn =
      or_missing (to_float A amount_col (value_at amount_col txn))

-- `count_missing_optional_fields`
unfoldable pub count_missing_optional_fields : Dict String Value → List String → ℕ
count_missing_optional_fields txn required =
    count (λ entry. not (any (λ f. f == entry.0) required) && is_null entry.1) txn
