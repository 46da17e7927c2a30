-- ===== src/Engine/Parity.antt =====
-- The reports on the parity of offline and online results (src/engine/parity.py), without the mean, the
-- correlation and the values that a report repeats. A frame is given by its rows under their ids.
pub mod Verdicts
pub mod Tests
use real_time_risk_fraud_eng.Prelude.{
  ℕ, ◌+◌, Bool, true, false, not, ◌&&◌, ◌||◌, String, Option, none, some, List, [], ◌∷◌, ◌++◌,
  length, if◌then◌else◌,
}
use real_time_risk_fraud_eng.Prelude.Keys.{Hashable, Dict, lookup, str_key}
use real_time_risk_fraud_eng.Result.{Result, ok, err, ◌>>=◌, ◌>>◌}
use real_time_risk_fraud_eng.Float.{Float, nan, pinf, is_nan, lt, le, max, zero_float, Arithmetic}
use real_time_risk_fraud_eng.Decision.Policy.{Decision, approve, review, block}

-- What the reports read of a result of the engine: a feature that is absent or None is absent.
pub record OnlineResult (I : Type 0) : Type 0 where
  pub transaction_id : I
  pub behavioral_features : Dict String Float
  pub risk_score : Float
  pub decision : Decision

-- A column that the offline row does not have.
pub data ParityError : Type 0 where
  key_error : ParityError

pub data Mismatch (I : Type 0) : Type 0 where
  not_found : I → Mismatch I
  feature_differs : I → String → Mismatch I
  score_differs : I → Mismatch I
  decision_differs : I → Decision → Decision → Mismatch I

pub record FeatureReport (I : Type 0) : Type 0 where
  pub n_features_compared : ℕ
  pub n_transactions_fully_matching : ℕ
  pub mismatches : List (Mismatch I)
  pub max_abs_diff : Float

pub record DecisionReport (I : Type 0) : Type 0 where
  pub n_compared : ℕ
  pub n_matching : ℕ
  pub mismatches : List (Mismatch I)

-- `BEHAVIORAL_FEATURE_NAMES`
abbrev pub behavioral_feature_names : List String
behavioral_feature_names =
    "bhv_prev_txn_count" ∷ "bhv_prev_txn_count_log1p" ∷ "bhv_hist_mean_amt" ∷ "bhv_hist_std_amt"
    ∷ "bhv_hist_min_amt" ∷ "bhv_hist_max_amt" ∷ "bhv_time_since_prev_txn"
    ∷ "bhv_amt_to_hist_mean_ratio" ∷ "bhv_amt_diff_from_hist_mean" ∷ "bhv_amt_zscore"
    ∷ "bhv_prior_count_1h" ∷ "bhv_prior_count_24h" ∷ []

-- row[name]
unfoldable pub column_of : Option Float → Result ParityError Float
column_of none = err key_error
column_of (some x) = ok x

unfoldable pub same_decision : Decision → Decision → Bool
same_decision approve approve = true
same_decision review review = true
same_decision block block = true
same_decision _ _ = false

module _ (A : Arithmetic) (tolerance : Float) where
  -- abs(x - y)
  unfoldable pub distance : Float → Float → Float
  distance x y = let d = A.sub x y in if lt d zero_float then A.sub zero_float d else d

  -- `_values_match`, of an offline value and an online one
  unfoldable pub values_match : Float → Option Float → Bool
  unfolding distance
  values_match a none = is_nan a
  values_match a (some b) =
      if is_nan a && is_nan b
      then true
      else if is_nan a || is_nan b
      then false
      else le (distance a b) tolerance

  -- max(max_abs_diff, diff if diff != float("inf") else max_abs_diff)
  unfoldable pub larger_diff : Float → Float → Option Float → Float
  unfolding distance
  larger_diff m a none = m
  larger_diff m a (some b) =
      if is_nan a || is_nan b then m else let d = distance a b in if le pinf d then m else max m d

module _ {I : Type 0} ⦃e : Hashable I⦄ (A : Arithmetic) (tolerance : Float) where
  -- The loop over the features of one transaction; the flag is `txn_ok`.
  unfoldable pub compare_features :
      I
      → Dict String Float
      → Dict String Float
      → List String
      → FeatureReport I × Bool
      → Result ParityError (FeatureReport I × Bool)
  unfolding column_of values_match larger_diff
  compare_features i row online [] state = ok state
  compare_features i row online (name ∷ names) (r, txn_ok) = column_of (lookup name row) >>= λ a.
      let b = lookup name online in
      let matches = values_match A tolerance a b in
      compare_features i row online names (
        record {
          n_features_compared = r.n_features_compared + 1;
          n_transactions_fully_matching = r.n_transactions_fully_matching;
          mismatches =
              if matches then r.mismatches else r.mismatches ++ feature_differs i name ∷ [];
          max_abs_diff =
              if matches then r.max_abs_diff else larger_diff A tolerance r.max_abs_diff a b;
        },
        (if matches then txn_ok else false),
      )

  -- n_matching_transactions += 1 if txn_ok
  unfoldable pub counted : FeatureReport I × Bool → FeatureReport I
  counted (r, txn_ok) = record r {
    n_transactions_fully_matching =
        if txn_ok then r.n_transactions_fully_matching + 1 else r.n_transactions_fully_matching;
  }

  unfoldable pub compare_transaction :
      Option (Dict String Float)
      → OnlineResult I
      → FeatureReport I
      → Result ParityError (FeatureReport I)
  unfolding compare_features counted
  compare_transaction none o r =
      ok (record r { mismatches = r.mismatches ++ not_found o.transaction_id ∷ [] })
  compare_transaction (some row) o r =
      compare_features o.transaction_id row o.behavioral_features behavioral_feature_names (r, true)
      >>= λ state. ok (counted state)

  unfoldable pub compare_all :
      Dict I (Dict String Float)
      → List (OnlineResult I)
      → FeatureReport I
      → Result ParityError (FeatureReport I)
  unfolding compare_transaction
  compare_all offline [] r = ok r
  compare_all offline (o ∷ results) r =
      compare_transaction (lookup o.transaction_id offline) o r >>= λ r'.
      compare_all offline results r'

  -- `validate_behavioral_feature_parity`
  unfoldable pub validate_behavioral_feature_parity :
      Dict I (Dict String Float) → List (OnlineResult I) → Result ParityError (FeatureReport I)
  unfolding compare_all
  validate_behavioral_feature_parity offline results = compare_all offline results (record {
    n_features_compared = 0;
    n_transactions_fully_matching = 0;
    mismatches = [];
    max_abs_diff = zero_float;
  })

  -- The loop of `validate_score_parity`: the distances and the mismatches.
  unfoldable pub validate_score_parity :
      Dict I Float → List (OnlineResult I) → List Float × List (Mismatch I)
  unfolding distance
  validate_score_parity offline [] = ([], [])
  validate_score_parity offline (o ∷ results) =
      let (diffs, mismatches) = validate_score_parity offline results in
      elim (lookup o.transaction_id offline) [
        | none ↦ (diffs, not_found o.transaction_id ∷ mismatches)
        | some x ↦
            let d = distance A tolerance x o.risk_score in
            (
              d ∷ diffs,
              if lt tolerance d then score_differs o.transaction_id ∷ mismatches else mismatches,
            )
      ]

module _ {I : Type 0} ⦃e : Hashable I⦄ where
  unfoldable pub compare_decision :
      Option Decision → OnlineResult I → DecisionReport I → DecisionReport I
  unfolding same_decision
  compare_decision none o r = r
  compare_decision (some d) o r =
      let matches = same_decision d o.decision in
      record {
        n_compared = r.n_compared + 1;
        n_matching = if matches then r.n_matching + 1 else r.n_matching;
        mismatches =
            if matches
            then r.mismatches
            else r.mismatches ++ decision_differs o.transaction_id d o.decision ∷ [];
      }

  -- The loop of `validate_decision_parity`.
  unfoldable pub compare_decisions :
      Dict I Decision → List (OnlineResult I) → DecisionReport I → DecisionReport I
  unfolding compare_decision
  compare_decisions offline [] r = r
  compare_decisions offline (o ∷ results) r =
      compare_decisions offline results (compare_decision (lookup o.transaction_id offline) o r)

  -- `validate_decision_parity`, before the share is taken
  unfoldable pub validate_decision_parity :
      Dict I Decision → List (OnlineResult I) → DecisionReport I
  unfolding compare_decisions
  validate_decision_parity offline results =
      compare_decisions offline results (record { n_compared = 0; n_matching = 0; mismatches = [] })
