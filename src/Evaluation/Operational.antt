-- ===== src/Evaluation/Operational.antt =====
-- Evaluation under a review budget (src/evaluation/operational_eval.py). `np.argsort` is a parameter.
-- A label is a Boolean, and a quotient is kept as numerator and denominator.
pub mod Budget
pub mod Ranking
pub mod Tests
use Prim.Native.Nat.{◌/◌}
use real_time_risk_fraud_eng.Prelude.{
  ℕ, zero, suc, ◌+◌, ◌-◌, Bool, true, false, not, ◌&&◌, List, [], ◌∷◌, map, if◌then◌else◌, length,
  leb, eqb, count,
}
use real_time_risk_fraud_eng.Prelude.Int.{pos, negsuc}
use real_time_risk_fraud_eng.Prelude.Keys.{int_key, ◌==◌}
use real_time_risk_fraud_eng.Prelude.Distinct.{elem}
use real_time_risk_fraud_eng.Result.{Result, ok, err, ◌>>=◌}
use real_time_risk_fraud_eng.Float.{
  Float, nan, ninf, pinf, fin, lt, le, zero_float, one_float, scale, Arithmetic,
}
use real_time_risk_fraud_eng.State.Entity.{float_of}
use real_time_risk_fraud_eng.Decision.Evaluation.{Ratio, undefined, quot, ratio, fraud_total}

pub data BudgetError : Type 0 where
  bad_fraction not_finite bad_shape : BudgetError

-- `math.ceil`, of a number that is not negative (of a negative one `max(1, …)` makes 1 anyway)
unfoldable pub ceiling : Float → Result BudgetError ℕ
ceiling nan = err not_finite
ceiling ninf = err not_finite
ceiling pinf = err not_finite
ceiling (fin (pos m)) = ok ((m + (scale - 1)) / scale)
ceiling (fin (negsuc m)) = ok 0

-- xs[-n:]
unfoldable pub drop : ℕ → List ℕ → List ℕ
drop zero xs = xs
drop (suc n) [] = []
drop (suc n) (x ∷ xs) = drop n xs

unfoldable pub last_of : ℕ → List ℕ → List ℕ
unfolding drop
last_of n xs = drop (length xs - n) xs

-- mask[top_idx] = True on `np.zeros(n)`, from the row `i` on
unfoldable pub mask_from : ℕ → ℕ → List ℕ → List Bool
mask_from i zero top = []
mask_from i (suc n) top = elem i top ∷ mask_from (suc i) n top

-- int(y_true[mask].sum())
unfoldable pub captured : List Bool → List Bool → ℕ
captured [] mask = 0
captured (y ∷ ys) [] = 0
captured (y ∷ ys) (m ∷ mask) = (if m then (if y then 1 else 0) else 0) + captured ys mask

pub record Report : Type 0 where
  pub review_budget : Float
  pub n_transactions_total : ℕ
  pub n_transactions_reviewed : ℕ
  pub fraud_cases_captured : ℕ
  pub total_fraud_cases : ℕ
  pub fraud_recall : Ratio
  pub precision_among_reviewed : Ratio

pub record BudgetRow : Type 0 where
  pub budget : Float
  pub recall_at : Ratio
  pub precision_at : Ratio

-- The dict that `fixed_budget_report` returns.
unfoldable pub budget_report : List Bool → Float → ℕ → ℕ → Report
budget_report ys k n c = record {
  review_budget = k;
  n_transactions_total = length ys;
  n_transactions_reviewed = n;
  fraud_cases_captured = c;
  total_fraud_cases = fraud_total ys;
  fraud_recall = ratio c (fraud_total ys);
  precision_among_reviewed = ratio c n;
}

module _ (A : Arithmetic) (argsort : List Float → List ℕ) where
  -- max(1, math.ceil(n * k_fraction))
  unfoldable pub n_selected : ℕ → Float → Result BudgetError ℕ
  unfolding ceiling
  n_selected n k = do c ← ceiling (A.mul (float_of n) k); ok (if leb c 1 then 1 else c)

  -- `top_k_mask`
  unfoldable pub top_k_mask : List Float → Float → Result BudgetError (List Bool × ℕ)
  top_k_mask scores k =
      if not (lt zero_float k && le k one_float)
      then err bad_fraction
      else (n_selected (length scores) k >>= λ n.
          ok (mask_from 0 (length scores) (last_of n (argsort scores)), n))

  -- A Boolean mask of another length is an IndexError.
  unfoldable pub captured_in : List Bool → List Bool → Result BudgetError ℕ
  captured_in ys mask =
      if eqb (length ys) (length mask) then ok (captured ys mask) else err bad_shape

  -- `recall_at_k`
  unfoldable pub recall_at_k : List Bool → List Float → Float → Result BudgetError Ratio
  recall_at_k ys scores k =
      if eqb (fraud_total ys) 0
      then ok undefined
      else (top_k_mask scores k >>= λ (mask, n).
          captured_in ys mask >>= λ c. ok (quot c (fraud_total ys)))

  -- `precision_at_k`
  unfoldable pub precision_at_k : List Bool → List Float → Float → Result BudgetError Ratio
  precision_at_k ys scores k =
      top_k_mask scores k >>= λ (mask, n). captured_in ys mask >>= λ c. ok (ratio c n)

  -- `multi_budget_table`
  unfoldable pub multi_budget_table :
      List Bool → List Float → List Float → Result BudgetError (List BudgetRow)
  multi_budget_table ys scores [] = ok []
  multi_budget_table ys scores (k ∷ budgets) = do
    recall ← recall_at_k ys scores k
    precision ← precision_at_k ys scores k
    rows ← multi_budget_table ys scores budgets
    ok (record { budget = k; recall_at = recall; precision_at = precision } ∷ rows)

  -- `fixed_budget_report`
  unfoldable pub fixed_budget_report : List Bool → List Float → Float → Result BudgetError Report
  fixed_budget_report ys scores k =
      top_k_mask scores k >>= λ (mask, n). captured_in ys mask >>= λ c. ok (budget_report ys k n c)
