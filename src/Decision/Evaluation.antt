-- ===== src/Decision/Evaluation.antt =====
-- `evaluate_policy` (src/decision/evaluation.py): the report on a policy over labelled scores.
-- A label is 1 (fraud) or 0, here a Boolean. A quotient is kept exact, as numerator and denominator.
pub mod Partition
pub mod Tests
use real_time_risk_fraud_eng.Prelude.{
  ℕ, zero, suc, ◌+◌, ◌-◌, Bool, true, false, String, List, [], ◌∷◌, if◌then◌else◌, count, length,
  not, eqb,
}
use real_time_risk_fraud_eng.Float.{Float}
use real_time_risk_fraud_eng.Value.{Number}
use real_time_risk_fraud_eng.Result.{Result, ok, err, ◌>>=◌, ◌>>◌, raise_if}
use real_time_risk_fraud_eng.Decision.Policy.{
  Policy, PolicyError, Decision, approve, review, block, decide,
}

-- `a / b if b > 0 else nan`
pub data Ratio : Type 0 where
  undefined : Ratio
  quot : ℕ → ℕ → Ratio

unfoldable pub ratio : ℕ → ℕ → Ratio
ratio a zero = undefined
ratio a (suc b) = quot a (suc b)

-- `bad_shape` is NumPy's IndexError for a mask of another length.
pub data EvaluationError : Type 0 where
  policy_error : PolicyError → EvaluationError
  bad_shape : EvaluationError

unfoldable pub same_decision : Decision → Decision → Bool
same_decision approve approve = true
same_decision approve review = false
same_decision approve block = false
same_decision review approve = false
same_decision review review = true
same_decision review block = false
same_decision block approve = false
same_decision block review = false
same_decision block block = true

-- int(mask.sum()) with mask = decisions == d
unfoldable pub in_bucket : Decision → List Decision → ℕ
in_bucket d ds = count (same_decision d) ds

-- int(y_true[mask].sum())
unfoldable pub fraud_where : Decision → List Bool → List Decision → ℕ
fraud_where d [] ds = 0
fraud_where d (y ∷ ys) [] = 0
fraud_where d (y ∷ ys) (e ∷ ds) =
    (if same_decision d e then (if y then 1 else 0) else 0) + fraud_where d ys ds

-- int(y_true.sum())
unfoldable pub fraud_total : List Bool → ℕ
fraud_total ys = count (λ y. y) ys

pub record Bucket : Type 0 where
  pub size : ℕ
  pub pct_of_total : Ratio
  pub fraud_count : ℕ
  pub legitimate_count : ℕ
  pub fraud_rate : Ratio

unfoldable pub bucket_of : Decision → List Bool → List Decision → Bucket
unfolding in_bucket fraud_where
bucket_of d ys ds =
    let n = in_bucket d ds in
    let fraud = fraud_where d ys ds in
    record {
      size = n;
      pct_of_total = ratio n (length ys);
      fraud_count = fraud;
      legitimate_count = n - fraud;
      fraud_rate = ratio fraud n;
    }

pub record Evaluation : Type 0 where
  pub policy_name : String
  pub approve_at : Number
  pub block_at : Number
  pub n_transactions : ℕ
  pub total_fraud : ℕ
  pub total_legitimate : ℕ
  pub approved : Bucket
  pub reviewed : Bucket
  pub blocked : Bucket
  pub captured_review_plus_block : ℕ
  pub captured_block_alone : ℕ
  pub missed_in_approve : ℕ
  pub recall_review_plus_block : Ratio
  pub precision_reviewed : Ratio
  pub precision_blocked : Ratio
  pub pct_legitimate_reviewed : Ratio
  pub pct_legitimate_blocked : Ratio
  pub pct_legitimate_intervened : Ratio
  pub legitimate_reviewed : ℕ
  pub legitimate_blocked : ℕ

-- The report for the decisions of `decide`.
unfoldable pub report_on : Policy → List Bool → List Decision → Evaluation
unfolding bucket_of fraud_total
report_on p ys ds =
    let n = length ys in
    let fraud = fraud_total ys in
    let a = bucket_of approve ys ds in
    let r = bucket_of review ys ds in
    let b = bucket_of block ys ds in
    record {
      policy_name = p.name;
      approve_at = p.approve_at;
      block_at = p.block_at;
      n_transactions = n;
      total_fraud = fraud;
      total_legitimate = n - fraud;
      approved = a;
      reviewed = r;
      blocked = b;
      captured_review_plus_block = r.fraud_count + b.fraud_count;
      captured_block_alone = b.fraud_count;
      missed_in_approve = a.fraud_count;
      recall_review_plus_block = ratio (r.fraud_count + b.fraud_count) fraud;
      precision_reviewed = ratio r.fraud_count r.size;
      precision_blocked = ratio b.fraud_count b.size;
      pct_legitimate_reviewed = ratio r.legitimate_count (n - fraud);
      pct_legitimate_blocked = ratio b.legitimate_count (n - fraud);
      pct_legitimate_intervened = ratio (r.legitimate_count + b.legitimate_count) (n - fraud);
      legitimate_reviewed = r.legitimate_count;
      legitimate_blocked = b.legitimate_count;
    }

lifted : Result PolicyError (List Decision) → Result EvaluationError (List Decision)
lifted (ok ds) = ok ds
lifted (err e) = err (policy_error e)

unfoldable pub evaluate_policy : List Bool → List Float → Policy → Result EvaluationError Evaluation
unfolding lifted
evaluate_policy ys scores p = do
  ds ← lifted (decide p scores)
  raise_if (not (eqb (length ys) (length ds))) bad_shape
  ok (report_on p ys ds)
