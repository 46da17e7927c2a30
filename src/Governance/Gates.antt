-- ===== src/Governance/Gates.antt =====
-- The promotion gates (src/governance/gates.py) and the compatibility checks they use
-- (src/governance/compatibility.py). The explanation texts of the six gates, which format numbers, are
-- left out; the aggregate's explanation is built.
pub mod Verdict
pub mod Promotion
pub mod Totality
pub mod Tests
use Prim.Native.String.{◌++◌ as ◌+++◌}
use real_time_risk_fraud_eng.Prelude.{
  Bool, true, false, not, ◌&&◌, String, Option, none, some, List, [], ◌∷◌, map, keep, if◌then◌else◌,
}
use real_time_risk_fraud_eng.Prelude.Int.{ℤ, pos, ◌-ℤ◌}
use real_time_risk_fraud_eng.Prelude.Keys.{◌==◌, str_key}
use real_time_risk_fraud_eng.Float.{Float, nan, ninf, pinf, fin, dyadic, is_nan, le, Arithmetic}
use real_time_risk_fraud_eng.Result.{Result, ok, err, ◌>>=◌, ◌>>◌}

-- `GATE_RESULTS`
pub data GateResult : Type 0 where
  pass fail requires_review : GateResult

-- `RECOMMENDATIONS`
pub data Recommendation : Type 0 where
  promote reject ask_review : Recommendation

pub record Gate : Type 0 where
  pub gate : String
  pub result : GateResult
  pub delta : Option Float

pub data GateError : Type 0 where
  key_error type_error : GateError

-- The value of a dict's key: missing, None or a float.
abbrev pub Metric : Type 0
Metric = Option (Option Float)

pub record Ranking : Type 0 where
  pub pr_auc : Metric
  pub roc_auc : Metric

-- What `evaluate_model_scores` returns: `policy_evaluation` is there when a policy was given.
pub record Eval : Type 0 where
  pub ranking : Ranking
  pub policy_evaluation : Option Metric

-- The two keys of a metadata dict that the checks read.
pub record Versions : Type 0 where
  pub feature_schema_version : Option String
  pub decision_policy_version : Option String

-- MIN_CANDIDATE_PR_AUC = 0.30
unfoldable pub min_candidate_pr_auc : Float
min_candidate_pr_auc = dyadic 5404319552844595 54

-- MAX_ACCEPTABLE_PR_AUC_DEGRADATION = 0.02
unfoldable pub max_acceptable_pr_auc_degradation : Float
max_acceptable_pr_auc_degradation = dyadic 5764607523034235 58

-- REVIEW_ZONE_PR_AUC_DEGRADATION = 0.005
unfoldable pub review_zone_pr_auc_degradation : Float
review_zone_pr_auc_degradation = dyadic 5764607523034235 60

-- MAX_ACCEPTABLE_LEGIT_BLOCKED_INCREASE = 0.005
unfoldable pub max_acceptable_legit_blocked_increase : Float
max_acceptable_legit_blocked_increase = dyadic 5764607523034235 60

-- _EPS = 1e-9
unfoldable pub gate_epsilon : Float
gate_epsilon = dyadic 4835703278458517 82

-- -x
unfoldable pub negated : Float → Float
negated nan = nan
negated ninf = pinf
negated pinf = ninf
negated (fin i) = fin (pos 0 -ℤ i)

-- d[key], where arithmetic or a comparison follows
unfoldable pub required : Metric → Result GateError Float
required none = err key_error
required (some none) = err type_error
required (some (some x)) = ok x

-- d[key] of a metadata dict
unfoldable pub version : Option String → Result GateError String
version none = err key_error
version (some v) = ok v

-- d.get(key) is not None, and not NaN
unfoldable pub available : Metric → Bool
available none = false
available (some none) = false
available (some (some x)) = not (is_nan x)

-- `_valid`
unfoldable pub valid_ranking : Ranking → Bool
valid_ranking r = available r.pr_auc && available r.roc_auc

-- `gate_metric_availability`
unfoldable pub gate_metric_availability : Eval → Eval → Gate
gate_metric_availability champion candidate = record {
  gate = "required_metric_availability";
  result = if valid_ranking champion.ranking && valid_ranking candidate.ranking then pass else fail;
  delta = none;
}

-- `check_schema_compatibility` and `check_decision_policy_compatibility`, by the two versions
unfoldable pub compatible : Option String → Option String → Result GateError Bool
compatible champion candidate = do a ← version champion; b ← version candidate; ok (a == b)

-- `run_compatibility_checks`
unfoldable pub run_compatibility_checks : Versions → Versions → Result GateError (Bool × Bool)
run_compatibility_checks champion candidate = do
  schema ← compatible champion.feature_schema_version candidate.feature_schema_version
  policy ← compatible champion.decision_policy_version candidate.decision_policy_version
  ok (schema, policy)

-- `gate_schema_compatibility`
unfoldable pub gate_schema_compatibility : Versions → Versions → Result GateError Gate
gate_schema_compatibility champion candidate = do
  checks ← run_compatibility_checks champion candidate
  ok (record {
    gate = "feature_schema_compatibility";
    result = if checks.0 then pass else fail;
    delta = none;
  })

-- `gate_candidate_quality`
unfoldable pub gate_candidate_quality : Eval → Result GateError Gate
gate_candidate_quality candidate = do
  pr ← required candidate.ranking.pr_auc
  ok (record {
    gate = "candidate_quality_threshold";
    result = if le min_candidate_pr_auc pr then pass else fail;
    delta = none;
  })

-- `gate_decision_policy_compatibility`
unfoldable pub gate_decision_policy_compatibility : Versions → Versions → Result GateError Gate
gate_decision_policy_compatibility champion candidate = do
  checks ← run_compatibility_checks champion candidate
  ok (record {
    gate = "decision_policy_compatibility";
    result = if checks.1 then pass else requires_review;
    delta = none;
  })

module _ (A : Arithmetic) where
  -- `a - b`, which is a TypeError on None; both keys are read first.
  unfoldable pub difference : Metric → Metric → Result GateError Float
  difference none b = err key_error
  difference (some a) none = err key_error
  difference (some none) (some b) = err type_error
  difference (some (some a)) (some none) = err type_error
  difference (some (some a)) (some (some b)) = ok (A.sub a b)

  -- The verdict of `gate_no_unacceptable_degradation` on the difference of the PR-AUCs.
  unfoldable pub degradation : Float → GateResult
  degradation delta =
      if le (A.sub (negated review_zone_pr_auc_degradation) gate_epsilon) delta
      then pass
      else if le (A.sub (negated max_acceptable_pr_auc_degradation) gate_epsilon) delta
      then requires_review
      else fail

  -- `gate_no_unacceptable_degradation`: the champion's metric is read first.
  unfoldable pub gate_no_unacceptable_degradation : Eval → Eval → Result GateError Gate
  gate_no_unacceptable_degradation champion candidate = do
    delta ← difference candidate.ranking.pr_auc champion.ranking.pr_auc
    ok (record {
      gate = "no_unacceptable_degradation";
      result = degradation delta;
      delta = some delta;
    })

  unfoldable pub blocked_gate : Option Metric → Option Metric → Result GateError Gate
  blocked_gate none candidate =
      ok (record { gate = "operational_compatibility"; result = requires_review; delta = none })
  blocked_gate (some a) none =
      ok (record { gate = "operational_compatibility"; result = requires_review; delta = none })
  blocked_gate (some a) (some b) = do
    delta ← difference b a
    ok (record {
      gate = "operational_compatibility";
      result = if le delta max_acceptable_legit_blocked_increase then pass else requires_review;
      delta = some delta;
    })

  -- `gate_operational_compatibility`
  unfoldable pub gate_operational_compatibility : Eval → Eval → Result GateError Gate
  gate_operational_compatibility champion candidate =
      blocked_gate champion.policy_evaluation candidate.policy_evaluation

  -- `run_all_gates`
  unfoldable pub run_all_gates : Versions → Versions → Eval → Eval → Result GateError (List Gate)
  run_all_gates champion_metadata candidate_metadata champion candidate = do
    schema ← gate_schema_compatibility champion_metadata candidate_metadata
    quality ← gate_candidate_quality candidate
    degraded ← gate_no_unacceptable_degradation champion candidate
    operational ← gate_operational_compatibility champion candidate
    policy ← gate_decision_policy_compatibility champion_metadata candidate_metadata
    ok (
        gate_metric_availability champion candidate
        ∷ schema
        ∷ quality
        ∷ degraded
        ∷ operational
        ∷ policy
        ∷ [])

unfoldable pub is_pass : GateResult → Bool
is_pass pass = true
is_pass fail = false
is_pass requires_review = false

unfoldable pub is_fail : GateResult → Bool
is_fail pass = false
is_fail fail = true
is_fail requires_review = false

unfoldable pub is_review : GateResult → Bool
is_review pass = false
is_review fail = false
is_review requires_review = true

-- ', '.join(names)
unfoldable pub joined : List String → String
joined [] = ""
joined (x ∷ []) = x
joined (x ∷ y ∷ ys) = x +++ ", " +++ joined (y ∷ ys)

pub record Aggregate : Type 0 where
  pub recommendation : Recommendation
  pub explanation : String
  pub failed_gates : List String
  pub review_gates : List String
  pub passed_gates : List String

-- The names of the gates with a result.
unfoldable pub gates_with : (GateResult → Bool) → List Gate → List String
gates_with p gs = map (λ g. g.gate) (keep (λ g. p g.result) gs)

unfoldable pub recommend : List String → List String → Recommendation × String
recommend (f ∷ fs) review = (reject, "Rejected: failed gate(s): " +++ joined (f ∷ fs) +++ ".")
recommend [] (g ∷ gs) =
    (ask_review, "Requires human review: gate(s) needing attention: " +++ joined (g ∷ gs) +++ ".")
recommend [] [] = (promote, "All promotion gates passed.")

-- `aggregate_gate_results`
unfoldable pub aggregate_gate_results : List Gate → Aggregate
aggregate_gate_results gs =
    let failed = gates_with is_fail gs in
    let review = gates_with is_review gs in
    let verdict = recommend failed review in
    record {
      recommendation = verdict.0;
      explanation = verdict.1;
      failed_gates = failed;
      review_gates = review;
      passed_gates = gates_with is_pass gs;
    }
