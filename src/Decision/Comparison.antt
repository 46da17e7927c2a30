-- ===== src/Decision/Comparison.antt =====
-- The policy against a ranking with the same budget (src/decision/comparison.py).
use real_time_risk_fraud_eng.Prelude.{ℕ, ◌+◌, Bool, ◌||◌, String, List, if◌then◌else◌}
use real_time_risk_fraud_eng.Float.{Float, nan, is_nan, Arithmetic}
use real_time_risk_fraud_eng.Result.{Result, ok, ◌>>=◌}
use real_time_risk_fraud_eng.Decision.Evaluation.{Ratio, Evaluation}
use real_time_risk_fraud_eng.Decision.Threshold.{rounded}
use real_time_risk_fraud_eng.Evaluation.Operational.{BudgetError, Report, fixed_budget_report}

pub record ThreeWay : Type 0 where
  pub policy_name : String
  pub n_intervened : ℕ
  pub fraud_captured : ℕ
  pub fraud_recall : Ratio
  pub precision_among_blocked : Ratio
  pub precision_among_reviewed : Ratio

pub record SimpleRanking : Type 0 where
  pub n_intervened : ℕ
  pub fraud_captured : ℕ
  pub fraud_recall : Ratio
  pub precision_among_flagged : Ratio

-- The dict without its fixed note.
pub record Comparison : Type 0 where
  pub matched_intervention_fraction : Float
  pub three_way_policy : ThreeWay
  pub simple_fixed_budget_ranking : SimpleRanking
  pub fraud_recall_delta_three_way_minus_simple : Float

unfoldable pub three_way : Evaluation → ThreeWay
three_way ev = record {
  policy_name = ev.policy_name;
  n_intervened = ev.reviewed.size + ev.blocked.size;
  fraud_captured = ev.captured_review_plus_block;
  fraud_recall = ev.recall_review_plus_block;
  precision_among_blocked = ev.precision_blocked;
  precision_among_reviewed = ev.precision_reviewed;
}

unfoldable pub simple_ranking : Report → SimpleRanking
simple_ranking rep = record {
  n_intervened = rep.n_transactions_reviewed;
  fraud_captured = rep.fraud_cases_captured;
  fraud_recall = rep.fraud_recall;
  precision_among_flagged = rep.precision_among_reviewed;
}

module _ (A : Arithmetic) where
  -- a - b if neither is NaN, else NaN
  unfoldable pub recall_delta : Float → Float → Float
  recall_delta a b = if is_nan a || is_nan b then nan else A.sub a b

  unfoldable pub total_intervention_fraction : Evaluation → Float
  total_intervention_fraction ev =
      A.add (rounded A ev.reviewed.pct_of_total) (rounded A ev.blocked.pct_of_total)

  unfoldable pub compare_policy_to_fixed_budget :
      (List Float → List ℕ) → List Bool → List Float → Evaluation → Result BudgetError Comparison
  compare_policy_to_fixed_budget argsort ys scores ev = do
    let k = total_intervention_fraction ev
    rep ← fixed_budget_report A argsort ys scores k
    ok (record {
      matched_intervention_fraction = k;
      three_way_policy = three_way ev;
      simple_fixed_budget_ranking = simple_ranking rep;
      fraud_recall_delta_three_way_minus_simple =
          recall_delta (rounded A ev.recall_review_plus_block) (rounded A rep.fraud_recall);
    })
