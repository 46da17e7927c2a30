-- ===== src/Drift/Categorical/Unchanged.antt =====
-- A batch of the values that the reference was made of shows no drift (src/drift/detectors.py with
-- src/drift/reference.py): both group the rare categories in the same way.
use real_time_risk_fraud_eng.Prelude.{
  ◌≡◌, refl, ◌∙◌, sym, ap, Bool, true, false, String, List, [], ◌∷◌, map, arith, keep, All,
  Bool-cases, inl, inr,
}
use real_time_risk_fraud_eng.Prelude.Keys.{Dict, lookup, str_key, ◌==◌, equal_refl}
use real_time_risk_fraud_eng.Prelude.Distinct.{keys, elem, Distinct}
use real_time_risk_fraud_eng.Float.{
  Float, is_finite, is_nan, lt, le, max, zero_float, one_float, dyadic, Arithmetic,
}
use real_time_risk_fraud_eng.Float.Order.{lt-eq-not-le, lt_of_lt_of_le}
use real_time_risk_fraud_eng.Features.Columns.{zip_with}
use real_time_risk_fraud_eng.Drift.Report.{no_significant_drift, severity_from_psi}
use real_time_risk_fraud_eng.Drift.Categorical.{
  Statistics, other_label, psi_eps, sorted, without, or_zero, grouped, with_other, kept_categories,
  grouped_current, all_categories, known_categories, percentages, psi_from_percentages,
  categorical_feature_profile, compute_categorical_drift,
}
use real_time_risk_fraud_eng.Drift.Categorical.Surfacing.{elem-sorted}
use real_time_risk_fraud_eng.Drift.Categorical.Grouping.{passes_own, others, grouped_same, agree}

all_there :
    (xs ys : List String)
    → ((c : String) → elem c xs ≡ true → elem c ys ≡ true)
    → without xs ys ≡ []
unfolding without keep
all_there [] ys h = refl
all_there (x ∷ xs) ys h =
    rw (h x (rw (equal_refl x) refl)) (all_there xs ys (λ c k. h c (ground (arith, k))))

finite_at :
    (c : String) (d : Dict String Float)
    → All (λ (e : String × Float). is_finite e.1 ≡ true) d
    → is_finite (or_zero (lookup c d)) ≡ true
unfolding lookup or_zero is_finite zero_float
finite_at c [] h = refl
finite_at c ((j, x) ∷ d) h = elim (Bool-cases (j == c)) [
  | inl same ↦ rw same h.0
  | inr other ↦ rw other (finite_at c d h.1)
]

pub not_nan_of_finite : (x : Float) → is_finite x ≡ true → is_nan x ≡ false
unfolding is_finite is_nan
not_nan_of_finite x h = ground arith

eps_positive : (is_finite psi_eps ≡ true) × (lt zero_float psi_eps ≡ true)
unfolding is_finite psi_eps dyadic lt zero_float
eps_positive = (refl, refl)

clipped_positive :
    (x : Float)
    → is_finite x ≡ true
    → (is_finite (max x psi_eps) ≡ true) × (lt zero_float (max x psi_eps) ≡ true)
unfolding max
clipped_positive x h = elim (Bool-cases (lt x psi_eps)) [
  | inl small ↦ rw small (eps_positive)
  | inr large ↦ rw large (
    h,
    lt_of_lt_of_le zero_float psi_eps x eps_positive.1 (
        ground (
          arith,
          large,
          lt-eq-not-le x psi_eps (not_nan_of_finite x h) (not_nan_of_finite psi_eps eps_positive.0),
        )),
  )
]

-- The laws of arithmetic on doubles that a comparison of equal shares needs.
pub record IsExact (A : Arithmetic) (S : Statistics) : Type 0 where
  pub sub_self : (x : Float) → is_finite x ≡ true → A.sub x x ≡ zero_float
  pub div_self : (x : Float) → is_finite x ≡ true → lt zero_float x ≡ true → A.div x x ≡ one_float
  pub log_one : S.log one_float ≡ zero_float
  pub mul_zero : A.mul zero_float zero_float ≡ zero_float
  pub total_zero : (xs : List Float) → All (λ x. x ≡ zero_float) xs → S.total xs ≡ zero_float

zero_severity : severity_from_psi zero_float ≡ no_significant_drift
unfolding severity_from_psi lt zero_float dyadic
zero_severity = refl

frequencies_finite :
    (cs : List String) (d : Dict String Float)
    → All (λ (e : String × Float). is_finite e.1 ≡ true) d
    → All (λ x. is_finite x ≡ true) (map (λ c. or_zero (lookup c d)) cs)
frequencies_finite [] d h = tt
frequencies_finite (c ∷ cs) d h = (finite_at c d h, frequencies_finite cs d h)

module _ (A : Arithmetic) (S : Statistics) (exact : IsExact A S) where
  no_terms :
      (xs : List Float)
      → All (λ x. is_finite x ≡ true) xs
      → All
          (λ x. x ≡ zero_float)
          (zip_with
            (λ r c. A.mul (A.sub c r) (S.log (A.div c r)))
            (map (λ x. max x psi_eps) xs)
            (map (λ x. max x psi_eps) xs))
  unfolding zip_with
  no_terms [] h = tt
  no_terms (x ∷ xs) h =
      let (finite, positive) = clipped_positive x h.0 in
      (
        rw
            (
              exact.sub_self (max x psi_eps) finite,
              exact.div_self (max x psi_eps) finite positive,
              exact.log_one,
            )
            exact.mul_zero,
        no_terms xs h.1,
      )

  -- With exact laws for equal shares, a dict of finite frequencies and no category under the name of the
  -- bucket for rare ones, the values of the reference, compared with their own profile, have a PSI of zero,
  -- no new and no missing category, and no significant drift.
  pub compute_categorical_drift_unchanged :
      (values : List String) (min_freq : Float)
      → let r = categorical_feature_profile A S values min_freq in
        Distinct (keys (S.value_counts values))
        → elem other_label (keys (S.value_counts values)) ≡ false
        → All (λ (e : String × Float). is_finite e.1 ≡ true) r.category_frequencies
        → let d = compute_categorical_drift A S r values in
          (d.psi ≡ zero_float)
          × (d.new_categories ≡ [])
          × (d.missing_categories ≡ [])
          × (d.severity ≡ no_significant_drift)
  unfolding compute_categorical_drift categorical_feature_profile known_categories grouped_current
      psi_from_percentages percentages sorted
  compute_categorical_drift_unchanged values min_freq distinct unnamed finite =
      let raw = S.value_counts values in
      let test : String → Float → Bool = λ c freq. le min_freq freq in
      let ref = with_other A S (grouped A S test raw [] zero_float) in
      let same =
        grouped_same A S test (λ c freq. elem c (kept_categories A S ref)) raw [] zero_float
          (agree A S test raw raw (others other_label raw unnamed)
            (passes_own test raw distinct)) in
      let cs = all_categories A S ref ref in
      let no_psi : psi_from_percentages A S (percentages A S ref cs) (percentages A S ref cs)
          ≡ zero_float =
        exact.total_zero _ (no_terms (percentages A S ref cs) (frequencies_finite cs ref finite)) in
      rw same (
        no_psi,
        rw
            (all_there (keys raw) (sorted S.before (keys raw))
              (λ c h. elem-sorted S.before c (keys raw) ∙ h))
            refl,
        rw
            (all_there (sorted S.before (keys raw)) (keys raw)
              (λ c h. sym (elem-sorted S.before c (keys raw)) ∙ h))
            refl,
        ap severity_from_psi no_psi ∙ zero_severity,
      )
