-- ===== src/Decision/Threshold/Tests.antt =====
-- Two validation rows, of which the fraud has the higher score.
use real_time_risk_fraud_eng.Prelude.{
  ℕ, ◌≡◌, refl, Bool, true, false, List, [], ◌∷◌, All, keep, if◌then◌else◌,
}
use real_time_risk_fraud_eng.Float.{
  Float, Arithmetic, zero_float, one_float, dyadic, scale, exact, lt, le, min, is_nan,
}
use real_time_risk_fraud_eng.Float.Exact.{exact_arithmetic}
use real_time_risk_fraud_eng.Value.{float, value_of}
use real_time_risk_fraud_eng.Result.{ok}
use real_time_risk_fraud_eng.Decision.Policy.{Policy, construct, in_unit}
use real_time_risk_fraud_eng.Decision.Evaluation.{ratio}
use real_time_risk_fraud_eng.Evaluation.Operational.{
  precision_at_k, top_k_mask, n_selected, captured_in, mask_from, captured, ceiling, drop, last_of,
}
use real_time_risk_fraud_eng.Decision.Threshold.{
  BlockSearch, Diagnostics, nano, derive_block_fraction_for_precision_target,
  build_policy_from_validation, measured, budgeted, choose, meets, first_result, found,
  largest_from, rounded, score_at_top_fraction, selected, np_min, lowest_from, lowest, constructed,
}
use real_time_risk_fraud_eng.Decision.Threshold.Search.{
  IsMeasured, IsMeasuredAt, IsFraction, IsChoice,
  derive_block_fraction_for_precision_target-IsChoice,
}
use real_time_risk_fraud_eng.Decision.Threshold.Build.{
  IsDerived, build_policy_from_validation-IsDerived,
}

abbrev argsort : List Float → List ℕ
argsort scores = 0 ∷ 1 ∷ []

abbrev scores : List Float
scores = zero_float ∷ one_float ∷ []

abbrev labels : List Bool
labels = false ∷ true ∷ []

abbrev half : Float
half = dyadic 1 1

-- The products and quotients of this run: 2 * 0.5, 2 * 1, 1 / 1 and 1 / 2.
arithmetic : Arithmetic
unfolding lt dyadic one_float scale
arithmetic = record exact_arithmetic {
  mul = λ x y. if lt y one_float then one_float else x;
  div = λ x y. if lt x y then half else one_float;
}

abbrev grid : Float → Float → Float → List Float
grid start stop step = half ∷ one_float ∷ []

-- Of the top half all are frauds, of the whole one half: for a precision of 1 the search finds the half.
abbrev half_found : BlockSearch
half_found = record {
  block_fraction = half;
  achieved_precision = one_float;
  min_precision_target = one_float;
  target_achieved = true;
  all_candidates =
      record { fraction = half; precision = one_float }
      ∷ record { fraction = one_float; precision = half }
      ∷ [];
}

search_finds :
    derive_block_fraction_for_precision_target arithmetic argsort grid labels scores one_float
      one_float half
    ≡ ok half_found
unfolding arithmetic derive_block_fraction_for_precision_target measured budgeted precision_at_k
    top_k_mask lt zero_float dyadic le one_float scale n_selected exact captured_in mask_from choose
    keep meets ratio first_result found largest_from nano rounded captured ceiling drop last_of
search_finds = refl

grid-IsFraction : All (IsFraction arithmetic argsort labels scores) (half ∷ one_float ∷ [])
unfolding arithmetic lt le zero_float one_float dyadic scale n_selected ceiling exact
grid-IsFraction = ((refl, refl, (1, refl)), ((refl, refl, (2, refl)), tt))

derive_block_fraction_for_precision_target-IsChoice_example :
    (s : BlockSearch) × (derive_block_fraction_for_precision_target arithmetic argsort grid labels
        scores one_float one_float half
      ≡ ok s)
    × IsMeasured arithmetic argsort labels scores
        (record { fraction = s.block_fraction; precision = s.achieved_precision })
    × IsMeasuredAt arithmetic argsort labels scores (half ∷ one_float ∷ []) s.all_candidates
    × IsChoice one_float s.all_candidates s
derive_block_fraction_for_precision_target-IsChoice_example =
    derive_block_fraction_for_precision_target-IsChoice arithmetic argsort labels scores grid
      one_float one_float half half (one_float ∷ []) refl refl grid-IsFraction

abbrev built : Policy × Diagnostics
built = (
  record { approve_at = float zero_float; block_at = float one_float; name = "half" },
  record {
    name = "half";
    review_capacity_target = one_float;
    block_precision_target = one_float;
    approve_threshold = zero_float;
    block_threshold = one_float;
    block_fraction_selected = half;
    block_precision_achieved = one_float;
    block_precision_target_achieved = true;
  },
)

builds :
    build_policy_from_validation arithmetic argsort grid labels scores one_float one_float "half"
      half
    ≡ ok built
unfolding build_policy_from_validation score_at_top_fraction selected np_min lowest_from lowest
    constructed construct in_unit min is_nan value_of arithmetic
    derive_block_fraction_for_precision_target measured budgeted precision_at_k top_k_mask lt
    zero_float dyadic le one_float scale n_selected exact captured_in mask_from choose keep meets
    ratio first_result found largest_from nano rounded captured ceiling drop last_of
builds = refl

build_policy_from_validation-IsDerived_example :
    IsDerived arithmetic argsort scores built × (built.1.review_capacity_target ≡ one_float)
build_policy_from_validation-IsDerived_example =
    build_policy_from_validation-IsDerived arithmetic argsort scores grid labels one_float one_float
      "half" half built builds
