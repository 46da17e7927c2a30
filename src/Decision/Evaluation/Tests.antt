-- ===== src/Decision/Evaluation/Tests.antt =====
-- An evaluation of three labelled scores.
use real_time_risk_fraud_eng.Prelude.{◌≡◌, refl, Bool, true, false, List, [], ◌∷◌, any, length}
use real_time_risk_fraud_eng.Float.{Float, is_nan, zero_float, dyadic}
use real_time_risk_fraud_eng.Result.{ok}
use real_time_risk_fraud_eng.Decision.Policy.Tests.{sample_policy, half, three_quarters}
use real_time_risk_fraud_eng.Decision.Evaluation.{Evaluation, evaluate_policy, fraud_total}
use real_time_risk_fraud_eng.Decision.Evaluation.Partition.{
  IsAccounted, evaluate_policy-IsAccounted,
}

abbrev labels : List Bool
labels = false ∷ true ∷ true ∷ []

abbrev scores : List Float
scores = zero_float ∷ half ∷ three_quarters ∷ []

scores_are_numbers : any is_nan scores ≡ false
unfolding is_nan dyadic zero_float
scores_are_numbers = refl

evaluate_policy-IsAccounted_example :
    (ev : Evaluation) × (evaluate_policy labels scores sample_policy ≡ ok ev)
    × IsAccounted ev (length labels) (fraud_total labels)
evaluate_policy-IsAccounted_example =
    evaluate_policy-IsAccounted labels scores sample_policy scores_are_numbers refl
