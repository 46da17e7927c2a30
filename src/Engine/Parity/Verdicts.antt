-- ===== src/Engine/Parity/Verdicts.antt =====
-- What the counts of a parity report (src/engine/parity.py) tell about its transactions.
use real_time_risk_fraud_eng.Prelude.{
  ℕ, ◌+◌, ◌≤◌, ◌≡◌, ◌↔◌, refl, Bool, true, false, ◌&&◌, String, Option, none, some, List, [], ◌∷◌,
  arith, length, count, is_some, eqb, if◌then◌else◌,
}
use real_time_risk_fraud_eng.Prelude.Keys.{Hashable, Dict, lookup, str_key}
use real_time_risk_fraud_eng.Prelude.Lists.{length-append}
use real_time_risk_fraud_eng.Result.{ok, bind_ok, ok_injective}
use real_time_risk_fraud_eng.Float.{Float, Arithmetic}
use real_time_risk_fraud_eng.Decision.Policy.{Decision}
use real_time_risk_fraud_eng.Engine.Parity.{
  OnlineResult, FeatureReport, DecisionReport, feature_differs, not_found, decision_differs,
  behavioral_feature_names, column_of, compare_features, counted, compare_transaction, compare_all,
  validate_behavioral_feature_parity, compare_decision, compare_decisions, validate_decision_parity,
}

-- `r'` comes from `r` by `n` transactions: mismatches are only added, and none is exactly if all `n` match.
record Extends {I : Type 0} (n : ℕ) (r r' : FeatureReport I) : Type 0 where
  added : length r.mismatches ≤ length r'.mismatches
  at_most : r'.n_transactions_fully_matching ≤ r.n_transactions_fully_matching + n
  all_match :
      length r'.mismatches ≡ length r.mismatches
      → r'.n_transactions_fully_matching ≡ r.n_transactions_fully_matching + n
  none_added :
      r'.n_transactions_fully_matching ≡ r.n_transactions_fully_matching + n
      → length r'.mismatches ≡ length r.mismatches

Extends-counted :
    {I : Type 0} (r s : FeatureReport I) (flag : Bool)
    → (s.n_transactions_fully_matching ≡ r.n_transactions_fully_matching)
      × (length r.mismatches ≤ length s.mismatches)
      × (flag ≡ true && eqb (length s.mismatches) (length r.mismatches))
    → Extends 1 r (record s {
      n_transactions_fully_matching =
          if flag then s.n_transactions_fully_matching + 1 else s.n_transactions_fully_matching;
    })
Extends-counted r s true (kept, more, h) = record {
  added = more;
  at_most = omega (arith, kept);
  all_match = λ k. omega (arith, kept);
  none_added = λ k. ground (arith, h);
}
Extends-counted r s false (kept, more, h) = record {
  added = more;
  at_most = omega (arith, kept);
  all_match = λ k. ground (arith, h, k);
  none_added = λ k. omega (arith, kept, k);
}

module _ {I : Type 0} ⦃e : Hashable I⦄ (A : Arithmetic) (tolerance : Float) where
  compare_features_flag :
      (i : I) (row online : Dict String Float) (names : List String) (r : FeatureReport I)
      (flag : Bool) (s : FeatureReport I × Bool)
      → compare_features A tolerance i row online names (r, flag) ≡ ok s
      → (s.0.n_transactions_fully_matching ≡ r.n_transactions_fully_matching)
        × (length r.mismatches ≤ length s.0.mismatches)
        × (s.1 ≡ flag && eqb (length s.0.mismatches) (length r.mismatches))
  unfolding compare_features
  compare_features_flag i row online [] r flag s h =
      rw (← ok_injective h) (refl, omega arith, ground arith)
  compare_features_flag i row online (name ∷ names) r flag s h =
      let (a, there, h1) = bind_ok (column_of (lookup name row)) _ s h in
      let ih = compare_features_flag i row online names _ _ s h1 in
      ground (arith, ih, length-append r.mismatches (feature_differs i name ∷ []))

  Extends-transaction :
      (found : Option (Dict String Float)) (o : OnlineResult I) (r r' : FeatureReport I)
      → compare_transaction A tolerance found o r ≡ ok r'
      → Extends 1 r r'
  unfolding compare_transaction counted
  Extends-transaction none o r r' h = rw (← ok_injective h) (record {
    added = omega (arith, length-append r.mismatches (not_found o.transaction_id ∷ []));
    at_most = omega arith;
    all_match = λ k. omega (arith, k, length-append r.mismatches (not_found o.transaction_id ∷ []));
    none_added = λ k. omega (arith, k);
  })
  Extends-transaction (some row) o r r' h =
      let ((s, flag), compared, last) =
        bind_ok
          (compare_features A tolerance o.transaction_id row o.behavioral_features
            behavioral_feature_names (r, true))
          _ r' h in
      rw (← ok_injective last) (
        Extends-counted r s flag (
          compare_features_flag o.transaction_id row o.behavioral_features behavioral_feature_names
            r true (s, flag) compared))

  Extends-all :
      (offline : Dict I (Dict String Float)) (results : List (OnlineResult I))
      (r r' : FeatureReport I)
      → compare_all A tolerance offline results r ≡ ok r'
      → Extends (length results) r r'
  unfolding compare_all
  Extends-all offline [] r r' h = rw (← ok_injective h) (record {
    added = omega arith;
    at_most = omega arith;
    all_match = λ k. omega arith;
    none_added = λ k. refl;
  })
  Extends-all offline (o ∷ results) r r' h =
      let (middle, first, rest) =
        bind_ok (compare_transaction A tolerance (lookup o.transaction_id offline) o r) _ r' h in
      let x = Extends-transaction (lookup o.transaction_id offline) o r middle first in
      let y = Extends-all offline results middle r' rest in
      record {
        added = omega (arith, x.added, y.added);
        at_most = omega (arith, x.at_most, y.at_most);
        all_match = λ k.
            let first_match = x.all_match (omega (arith, k, x.added, y.added)) in
            let rest_match = y.all_match (omega (arith, k, x.added, y.added)) in
            omega (arith, first_match, rest_match);
        none_added = λ k.
            let first_none = x.none_added (omega (arith, k, x.at_most, y.at_most)) in
            let rest_none = y.none_added (omega (arith, k, x.at_most, y.at_most)) in
            omega (arith, first_none, rest_none);
      }

  -- A report on the features that is returned has no mismatch exactly if every transaction matches fully,
  -- and never counts more matching transactions than there are.
  pub validate_behavioral_feature_parity_verdict :
      (offline : Dict I (Dict String Float)) (results : List (OnlineResult I)) (r : FeatureReport I)
      → validate_behavioral_feature_parity A tolerance offline results ≡ ok r
      → ((length r.mismatches ≡ 0) ↔ (r.n_transactions_fully_matching ≡ length results))
        × (r.n_transactions_fully_matching ≤ length results)
  unfolding validate_behavioral_feature_parity
  validate_behavioral_feature_parity_verdict offline results r h =
      let x = Extends-all offline results _ r h in
      (
        (λ k. omega (arith, x.all_match k), λ k. x.none_added (omega (arith, k))),
        omega (arith, x.at_most),
      )

module _ {I : Type 0} ⦃e : Hashable I⦄ where
  compare_decision_counts :
      (offline : Option Decision) (o : OnlineResult I) (r : DecisionReport I)
      → r.n_matching + length r.mismatches ≡ r.n_compared
      → let r' = compare_decision offline o r in
        (r'.n_matching + length r'.mismatches ≡ r'.n_compared)
        × (r'.n_compared ≡ r.n_compared + (if is_some offline then 1 else 0))
  unfolding compare_decision
  compare_decision_counts none o r h = (h, omega arith)
  compare_decision_counts (some d) o r h = (
    ground (
      arith,
      h,
      length-append r.mismatches (decision_differs o.transaction_id d o.decision ∷ []),
    ),
    refl,
  )

  compare_decisions_counts :
      (offline : Dict I Decision) (results : List (OnlineResult I)) (r : DecisionReport I)
      → r.n_matching + length r.mismatches ≡ r.n_compared
      → let r' = compare_decisions offline results r in
        (r'.n_matching + length r'.mismatches ≡ r'.n_compared)
        × (r'.n_compared
            ≡ r.n_compared + count (λ o. is_some (lookup o.transaction_id offline)) results)
  unfolding compare_decisions count
  compare_decisions_counts offline [] r h = (h, omega arith)
  compare_decisions_counts offline (o ∷ results) r h =
      let (split, compared) = compare_decision_counts (lookup o.transaction_id offline) o r h in
      let (all_split, all_compared) = compare_decisions_counts offline results _ split in
      (all_split, omega (arith, compared, all_compared))

  -- The report on the decisions compares the transactions that have an offline decision and no others, and
  -- each of these matches or is a mismatch; a transaction without one is left out silently.
  pub validate_decision_parity_counts :
      (offline : Dict I Decision) (results : List (OnlineResult I))
      → let r = validate_decision_parity offline results in
        (r.n_matching + length r.mismatches ≡ r.n_compared)
        × (r.n_compared ≡ count (λ o. is_some (lookup o.transaction_id offline)) results)
  unfolding validate_decision_parity
  validate_decision_parity_counts offline results =
      let nothing : DecisionReport I = record { n_compared = 0; n_matching = 0; mismatches = [] } in
      let (split, compared) = compare_decisions_counts offline results nothing (omega arith) in
      (split, omega (arith, compared))
