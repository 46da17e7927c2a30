-- ===== src/Decision/Threshold.antt =====
-- Thresholds from validation data (src/decision/threshold_selection.py). `np.argsort` and `np.arange`
-- are parameters. A label is a Boolean.
pub mod Search
pub mod Build
pub mod Tests
use real_time_risk_fraud_eng.Prelude.{
  ℕ, Bool, true, false, String, List, [], ◌∷◌, not, map, keep, if◌then◌else◌,
}
use real_time_risk_fraud_eng.Float.{Float, nan, is_nan, lt, le, min, dyadic, Arithmetic}
use real_time_risk_fraud_eng.Value.{float, number}
use real_time_risk_fraud_eng.Result.{Result, ok, err, ◌>>=◌, ◌>>◌, raise_if}
use real_time_risk_fraud_eng.State.Entity.{float_of}
use real_time_risk_fraud_eng.Decision.Policy.{Policy, PolicyError, construct}
use real_time_risk_fraud_eng.Decision.Evaluation.{Ratio, undefined, quot}
use real_time_risk_fraud_eng.Evaluation.Operational.{BudgetError, top_k_mask, precision_at_k}

-- `empty_slice` is NumPy's ValueError for the minimum of no score, `no_candidates` the IndexError of
-- `results[0]`, and `assertion_failed` the AssertionError of the guard.
pub data ThresholdError : Type 0 where
  budget_error : BudgetError → ThresholdError
  policy_error : PolicyError → ThresholdError
  empty_slice no_candidates assertion_failed : ThresholdError

unfoldable pub budgeted {ℓ} : {X : Type ℓ} → Result BudgetError X → Result ThresholdError X
budgeted (ok x) = ok x
budgeted (err e) = err (budget_error e)

unfoldable pub constructed : Result PolicyError Policy → Result ThresholdError Policy
constructed (ok p) = ok p
constructed (err e) = err (policy_error e)

-- scores[mask]
unfoldable pub selected : List Float → List Bool → List Float
selected [] mask = []
selected (s ∷ scores) [] = []
selected (s ∷ scores) (m ∷ mask) = let rest = selected scores mask in if m then s ∷ rest else rest

-- NumPy's minimum of two, in which a NaN wins.
unfoldable pub np_min : Float → Float → Float
np_min x y = if is_nan x then x else if is_nan y then y else min x y

unfoldable pub lowest_from : Float → List Float → Float
lowest_from x [] = x
lowest_from x (y ∷ ys) = lowest_from (np_min x y) ys

-- xs.min()
unfoldable pub lowest : List Float → Result ThresholdError Float
lowest [] = err empty_slice
lowest (x ∷ xs) = ok (lowest_from x xs)

-- A fraction and the precision that is measured for it.
pub record Candidate : Type 0 where
  pub fraction : Float
  pub precision : Float

pub record BlockSearch : Type 0 where
  pub block_fraction : Float
  pub achieved_precision : Float
  pub min_precision_target : Float
  pub target_achieved : Bool
  pub all_candidates : List Candidate

pub record Diagnostics : Type 0 where
  pub name : String
  pub review_capacity_target : Float
  pub block_precision_target : Float
  pub approve_threshold : Float
  pub block_threshold : Float
  pub block_fraction_selected : Float
  pub block_precision_achieved : Float
  pub block_precision_target_achieved : Bool

-- p >= min_precision
unfoldable pub meets : Float → Candidate → Bool
meets target c = le target c.precision

-- max(…, key=lambda x: x[0]) of `b` and the candidates after it: the first of the largest
unfoldable pub largest_from : Candidate → List Candidate → Candidate
largest_from b [] = b
largest_from b (c ∷ cs) = largest_from (if lt b.fraction c.fraction then c else b) cs

unfoldable pub found : Float → Bool → List Candidate → Candidate → BlockSearch
found target achieved results c = record {
  block_fraction = c.fraction;
  achieved_precision = c.precision;
  min_precision_target = target;
  target_achieved = achieved;
  all_candidates = results;
}

-- `results[0]`, where no candidate meets the target.
unfoldable pub first_result : Float → List Candidate → Result ThresholdError BlockSearch
first_result target [] = err no_candidates
first_result target (c ∷ cs) = ok (found target false (c ∷ cs) c)

-- From `meeting_target` on.
unfoldable pub choose : Float → List Candidate → List Candidate → Result ThresholdError BlockSearch
choose target results [] = first_result target results
choose target results (c ∷ meeting) = ok (found target true results (largest_from c meeting))

-- 1e-9
unfoldable pub nano : Float
nano = dyadic 4835703278458517 82

-- The quotient as a float.
unfoldable pub rounded : Arithmetic → Ratio → Float
rounded A undefined = nan
rounded A (quot a b) = A.div (float_of a) (float_of b)

module _ (A : Arithmetic) (argsort : List Float → List ℕ) where
  -- `score_at_top_fraction`
  unfoldable pub score_at_top_fraction : List Float → Float → Result ThresholdError Float
  score_at_top_fraction scores fraction =
      budgeted (top_k_mask A argsort scores fraction) >>= λ (mask, n). lowest (selected scores mask)

  -- The loop over the candidate fractions.
  unfoldable pub measured :
      List Bool → List Float → List Float → Result ThresholdError (List Candidate)
  measured ys scores [] = ok []
  measured ys scores (f ∷ fs) = do
    x ← budgeted (precision_at_k A argsort ys scores f)
    results ← measured ys scores fs
    ok (record { fraction = f; precision = rounded A x } ∷ results)

  -- np.arange(start, stop, step)
  module _ (arange : Float → Float → Float → List Float) where
    -- `derive_block_fraction_for_precision_target`
    unfoldable pub derive_block_fraction_for_precision_target :
        List Bool → List Float → Float → Float → Float → Result ThresholdError BlockSearch
    derive_block_fraction_for_precision_target ys scores max_fraction target step = do
      results ← measured ys scores (arange step (A.add max_fraction nano) step)
      choose target results (keep (meets target) results)

    -- `build_policy_from_validation`
    unfoldable pub build_policy_from_validation :
        List Bool
        → List Float
        → Float
        → Float
        → String
        → Float
        → Result ThresholdError (Policy × Diagnostics)
    build_policy_from_validation ys scores capacity target name step = do
      a ← score_at_top_fraction scores capacity
      s ← derive_block_fraction_for_precision_target ys scores capacity target step
      b ← score_at_top_fraction scores s.block_fraction
      raise_if (not (le a b)) assertion_failed
      p ← constructed (construct (number (float a)) (number (float b)) name)
      ok (
        p,
        record {
          name = name;
          review_capacity_target = capacity;
          block_precision_target = target;
          approve_threshold = a;
          block_threshold = b;
          block_fraction_selected = s.block_fraction;
          block_precision_achieved = s.achieved_precision;
          block_precision_target_achieved = s.target_achieved;
        },
      )
