-- ===== src/Decision/Policy/Tests.antt =====
-- Instances of the theorems on policies, at the thresholds 0.25 and 0.5.
use real_time_risk_fraud_eng.Prelude.{◌≡◌, refl, false, List, [], ◌∷◌, map, any}
use real_time_risk_fraud_eng.Float.{Float, dyadic, is_nan, le, lt, zero_float, one_float, scale}
use real_time_risk_fraud_eng.Value.{number, float, value_of}
use real_time_risk_fraud_eng.Result.{ok}
use real_time_risk_fraud_eng.Decision.Policy.{Policy, decide, construct, in_unit}
use real_time_risk_fraud_eng.Decision.Policy.Validity.{IsValid}
use real_time_risk_fraud_eng.Decision.Policy.Classify.{classify, decide-eq-classify}

abbrev pub quarter : Float
quarter = dyadic 1 2

abbrev pub half : Float
half = dyadic 1 1

abbrev pub three_quarters : Float
three_quarters = dyadic 3 2

abbrev pub sample_policy : Policy
sample_policy = record { approve_at = float quarter; block_at = float half; name = "sample" }

pub sample_policy-IsValid : IsValid sample_policy
unfolding le value_of zero_float one_float dyadic scale
sample_policy-IsValid = record {
  approve_low = refl;
  approve_high = refl;
  block_low = refl;
  block_high = refl;
  ordered = refl;
}

abbrev scores : List Float
scores = zero_float ∷ quarter ∷ half ∷ []

scores_are_numbers : any is_nan scores ≡ false
unfolding is_nan dyadic zero_float
scores_are_numbers = refl

decide-eq-classify_example : decide sample_policy scores ≡ ok (map (classify sample_policy) scores)
decide-eq-classify_example =
    decide-eq-classify sample_policy sample_policy-IsValid scores scores_are_numbers

constructed : construct (number (float quarter)) (number (float half)) "sample" ≡ ok sample_policy
unfolding construct in_unit le lt value_of zero_float one_float dyadic scale
constructed = refl
