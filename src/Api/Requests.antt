-- ===== src/Api/Requests.antt =====
-- `TransactionRequest` (src/api/schemas.py) and `build_full_transaction_dict` (src/api/dependencies.py).
-- Pydantic's conversion of a body by the declared fields is the parameter `fields`.
pub mod Admission
use real_time_risk_fraud_eng.Prelude.{
  Bool, true, false, not, String, Option, none, some, List, [], ◌∷◌, if◌then◌else◌,
}
use real_time_risk_fraud_eng.Prelude.Keys.{Dict}
use real_time_risk_fraud_eng.Result.{Result, ok, err, ◌>>=◌, ◌>>◌, raise_if}
use real_time_risk_fraud_eng.Float.{Float, is_finite}
use real_time_risk_fraud_eng.Value.{Value, null, other, bool, number, str, int, float}
use real_time_risk_fraud_eng.Engine.Validation.{has_key, value_at}
use real_time_risk_fraud_eng.Api.{ApiError, request_validation, or_error}

-- `not (v != v or v in (inf, -inf))`, for the `float` of a converted field
unfoldable pub dt_is_finite : Value → Bool
dt_is_finite null = false
dt_is_finite other = false
dt_is_finite (bool b) = false
dt_is_finite (str s) = false
dt_is_finite (number (int i)) = true
dt_is_finite (number (float x)) = is_finite x

-- The validators of the schema around Pydantic's own: the label before, the time after.
unfoldable pub parse_request :
    (Dict String Value → Option (Dict String Value))
    → Dict String Value
    → Result ApiError (Dict String Value)
unfolding or_error
parse_request fields body = do
  raise_if (has_key body "isFraud") request_validation
  request ← or_error request_validation (fields body)
  raise_if (not (dt_is_finite (value_at "TransactionDT" request))) request_validation
  ok request

-- {col: data.get(col, None) for col in expected_columns}
unfoldable pub build_full_transaction_dict : List String → Dict String Value → Dict String Value
build_full_transaction_dict [] request = []
build_full_transaction_dict (c ∷ cs) request =
    (c, value_at c request) ∷ build_full_transaction_dict cs request
