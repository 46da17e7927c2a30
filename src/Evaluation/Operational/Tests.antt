-- ===== src/Evaluation/Operational/Tests.antt =====
-- A review budget of the half of the queue, over two rows.
use real_time_risk_fraud_eng.Prelude.{
  ℕ, zero, suc, ◌≤◌, ◌<◌, ◌≡◌, refl, Bool, true, false, List, [], ◌∷◌, arith, length, count, leb,
  if◌then◌else◌,
}
use real_time_risk_fraud_eng.Prelude.Keys.{int_key}
use real_time_risk_fraud_eng.Prelude.Distinct.{elem}
use real_time_risk_fraud_eng.Result.{ok}
use real_time_risk_fraud_eng.Float.{
  Float, Arithmetic, zero_float, one_float, dyadic, lt, le, scale, exact,
}
use real_time_risk_fraud_eng.Float.Exact.{exact_arithmetic}
use real_time_risk_fraud_eng.Decision.Evaluation.{fraud_total}
use real_time_risk_fraud_eng.Evaluation.Operational.{
  captured, n_selected, fixed_budget_report, budget_report,
}
use real_time_risk_fraud_eng.Evaluation.Operational.Ranking.{
  IsSorting, IsTop, fixed_budget_report-IsTop,
}

abbrev argsort : List Float → List ℕ
argsort scores = 1 ∷ 0 ∷ []

abbrev scores : List Float
scores = one_float ∷ zero_float ∷ []

abbrev labels : List Bool
labels = true ∷ false ∷ []

abbrev half : Float
half = dyadic 1 1

-- The product of this run: 2 * 0.5.
abbrev arithmetic : Arithmetic
arithmetic = record exact_arithmetic { mul = λ x y. one_float }

covered : (i : ℕ) → i < 2 → elem i (argsort scores) ≡ true
covered zero h = refl
covered (suc zero) h = refl
covered (suc (suc i)) h = absurd (omega arith)

scores-IsSorting : IsSorting scores (argsort scores)
unfolding lt zero_float one_float scale
scores-IsSorting = record {
  places = record {
    distinct = (refl, (refl, tt));
    inside = (omega arith, (omega arith, tt));
    complete = refl;
  };
  covers = covered;
  ascending = ((refl, tt), (tt, tt));
}

share : (lt zero_float half ≡ true) × (le half one_float ≡ true)
unfolding lt le zero_float one_float scale dyadic
share = (refl, refl)

one_row : n_selected arithmetic argsort 2 half ≡ ok 1
unfolding n_selected scale one_float exact
one_row = refl

fixed_budget_report-IsTop_example :
    (mask : List Bool) × (fixed_budget_report arithmetic argsort labels scores half
      ≡ ok (budget_report labels half 1 (captured labels mask)))
    × (length mask ≡ 2)
    × (count (λ b. b) mask ≡ (if leb 1 2 then 1 else 2))
    × IsTop scores mask
    × (captured labels mask ≤ fraud_total labels)
    × (captured labels mask ≤ 1)
fixed_budget_report-IsTop_example =
    fixed_budget_report-IsTop arithmetic argsort labels scores half 1 scores-IsSorting refl share.0
      share.1 one_row
