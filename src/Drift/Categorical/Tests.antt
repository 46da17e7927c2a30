-- ===== src/Drift/Categorical/Tests.antt =====
-- A column of two categories, one of them rare, against itself and against another column.
use real_time_risk_fraud_eng.Prelude.{
  ◌≡◌, refl, ap, true, false, not, ◌&&◌, String, List, [], ◌∷◌, arith, All, if◌then◌else◌,
}
use real_time_risk_fraud_eng.Prelude.Int.{pos, negsuc, ◌-ℤ◌}
use real_time_risk_fraud_eng.Prelude.Keys.{Dict, str_key, insert}
use real_time_risk_fraud_eng.Prelude.Distinct.{keys, elem, Distinct}
use real_time_risk_fraud_eng.Float.{
  Float, nan, ninf, pinf, fin, is_finite, lt, le, zero_float, one_float, dyadic, Arithmetic,
}
use real_time_risk_fraud_eng.Float.Exact.{exact_arithmetic, exact_sub, negated}
use real_time_risk_fraud_eng.Float.Order.{le_refl}
use real_time_risk_fraud_eng.State.Entity.{same}
use real_time_risk_fraud_eng.Drift.Report.{no_significant_drift}
use real_time_risk_fraud_eng.Drift.Categorical.{
  Statistics, other_label, categorical_feature_profile, compute_categorical_drift, grouped,
  with_other,
}
use real_time_risk_fraud_eng.Drift.Categorical.Surfacing.{compute_categorical_drift_surfaces}
use real_time_risk_fraud_eng.Drift.Categorical.Unchanged.{
  IsExact, not_nan_of_finite, compute_categorical_drift_unchanged,
}

abbrev half : Float
half = dyadic 1 1

abbrev large : Float
large = dyadic 3 2

-- "W" has three quarters of the rows, any other category half of them.
unfoldable shares : List String → Dict String Float
shares [] = []
shares (c ∷ cs) = (c, if str_key.equal c "W" then large else half) ∷ shares cs

unfoldable plain_total : List Float → Float
plain_total [] = zero_float
plain_total (x ∷ xs) = exact_arithmetic.add x (plain_total xs)

abbrev statistics : Statistics
statistics = record {
  value_counts = shares;
  log = λ x. if same x one_float then zero_float else one_float;
  total = plain_total;
  before = λ c d. true;
}

abbrev arithmetic : Arithmetic
arithmetic = record exact_arithmetic { div = λ x y. if same x y then one_float else x }

sub_self : (x : Float) → is_finite x ≡ true → exact_sub x x ≡ zero_float
unfolding exact_sub zero_float is_finite ◌-ℤ◌
sub_self nan h = ground (arith, h)
sub_self ninf h = ground (arith, h)
sub_self pinf h = ground (arith, h)
sub_self (fin (pos n)) h = ap fin (ground arith)
sub_self (fin (negsuc n)) h = ap fin (ground arith)

same_self : (x : Float) → is_finite x ≡ true → same x x ≡ true
unfolding same
same_self x h = rw (le_refl x (not_nan_of_finite x h)) refl

plain_total_zero : (xs : List Float) → All (λ x. x ≡ zero_float) xs → plain_total xs ≡ zero_float
unfolding plain_total zero_float exact_sub negated ◌-ℤ◌
plain_total_zero [] h = refl
plain_total_zero (x ∷ xs) h = rw (h.0, plain_total_zero xs h.1) refl

statistics-IsExact : IsExact arithmetic statistics
unfolding one_float is_finite
statistics-IsExact = record {
  sub_self = sub_self;
  div_self = λ x h p. rw (same_self x h) refl;
  log_one = rw (same_self one_float refl) refl;
  mul_zero = refl;
  total_zero = plain_total_zero;
}

abbrev column : List String
column = "W" ∷ "C" ∷ []

column-Distinct : Distinct (keys (shares column))
unfolding shares
column-Distinct = (refl, (refl, tt))

column_unnamed : elem other_label (keys (shares column)) ≡ false
unfolding shares
column_unnamed = refl

column_finite :
    All
      (λ (e : String × Float). is_finite e.1 ≡ true)
      (categorical_feature_profile arithmetic statistics column large).category_frequencies
unfolding categorical_feature_profile grouped with_other shares insert is_finite le lt dyadic
    zero_float exact_sub negated ◌-ℤ◌
column_finite = (refl, (refl, tt))

compute_categorical_drift_unchanged_example :
    let d =
      compute_categorical_drift arithmetic statistics
        (categorical_feature_profile arithmetic statistics column large)
        column in
    (d.psi ≡ zero_float)
    × (d.new_categories ≡ [])
    × (d.missing_categories ≡ [])
    × (d.severity ≡ no_significant_drift)
compute_categorical_drift_unchanged_example =
    compute_categorical_drift_unchanged arithmetic statistics statistics-IsExact column large
      column-Distinct column_unnamed column_finite

compute_categorical_drift_surfaces_example :
    let d =
      compute_categorical_drift arithmetic statistics
        (categorical_feature_profile arithmetic statistics column large)
        ("C" ∷ "H" ∷ []) in
    let there = elem "H" (keys (shares ("C" ∷ "H" ∷ []))) in
    let known = elem "H" (keys (shares column)) in
    (elem "H" d.new_categories ≡ there && not known)
    × (elem "H" d.missing_categories ≡ known && not there)
compute_categorical_drift_surfaces_example =
    compute_categorical_drift_surfaces arithmetic statistics column ("C" ∷ "H" ∷ []) large "H"
