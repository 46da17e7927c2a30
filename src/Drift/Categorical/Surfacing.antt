-- ===== src/Drift/Categorical/Surfacing.antt =====
-- New and missing categories (src/drift/detectors.py) of a batch: grouping hides none.
use real_time_risk_fraud_eng.Prelude.{
  ◌≡◌, refl, ◌∙◌, Bool, not, ◌&&◌, String, List, [], ◌∷◌, arith, keep, Bool-cases, inl, inr,
}
use real_time_risk_fraud_eng.Prelude.Keys.{str_key, ◌==◌, equal_refl}
use real_time_risk_fraud_eng.Prelude.Distinct.{keys, elem}
use real_time_risk_fraud_eng.Float.{Float, Arithmetic}
use real_time_risk_fraud_eng.Drift.Categorical.{
  Statistics, insert_sorted, sorted, without, known_categories, categorical_feature_profile,
  compute_categorical_drift,
}

elem-insert_sorted :
    (before : String → String → Bool) (c d : String) (ds : List String)
    → elem c (insert_sorted before d ds) ≡ elem c (d ∷ ds)
unfolding insert_sorted
elem-insert_sorted before c d [] = refl
elem-insert_sorted before c d (x ∷ ds) = ground (arith, elem-insert_sorted before c d ds)

pub elem-sorted :
    (before : String → String → Bool) (c : String) (ds : List String)
    → elem c (sorted before ds) ≡ elem c ds
unfolding sorted
elem-sorted before c [] = refl
elem-sorted before c (d ∷ ds) =
    ground (arith, elem-insert_sorted before c d (sorted before ds), elem-sorted before c ds)

pub elem-without :
    (c : String) (xs ys : List String) → elem c (without xs ys) ≡ elem c xs && not (elem c ys)
unfolding without keep
elem-without c [] ys = refl
elem-without c (x ∷ xs) ys = elim (Bool-cases (x == c)) [
  | inl same ↦
      rw ((str_key.equal_iff x c).0 same) (ground (arith, equal_refl c, elem-without c xs ys))
  | inr other ↦ ground (arith, other, elem-without c xs ys)
]

module _ (A : Arithmetic) (S : Statistics) where
  -- Against the profile of a reference column, with any minimum frequency, a category is reported as new
  -- exactly if the batch has it and the reference column does not, and as missing exactly if the reference
  -- column has it and the batch does not.
  pub compute_categorical_drift_surfaces :
      (reference values : List String) (min_freq : Float) (c : String)
      → let d =
          compute_categorical_drift A S
            (categorical_feature_profile A S reference min_freq)
            values in
        let there = elem c (keys (S.value_counts values)) in
        let known = elem c (keys (S.value_counts reference)) in
        (elem c d.new_categories ≡ there && not known)
        × (elem c d.missing_categories ≡ known && not there)
  unfolding compute_categorical_drift categorical_feature_profile known_categories
  compute_categorical_drift_surfaces reference values min_freq c = (
    elem-sorted S.before c _
        ∙ elem-without c (keys (S.value_counts values))
            (sorted S.before (keys (S.value_counts reference)))
        ∙ rw (elem-sorted S.before c (keys (S.value_counts reference))) refl,
    elem-sorted S.before c _
        ∙ elem-without c (sorted S.before (keys (S.value_counts reference)))
            (keys (S.value_counts values))
        ∙ rw (elem-sorted S.before c (keys (S.value_counts reference))) refl,
  )
