-- ===== src/Drift/Report/Maximum.antt =====
-- The overall severity is the maximum, and it is attained.
use real_time_risk_fraud_eng.Prelude.{
  ℕ, zero, suc, ◌≤◌, ◌≡◌, ◌⊎◌, refl, sym, subst, true, String, List, [], ◌∷◌, keep, All, arith, inl,
  inr, if◌then◌else◌, eqb, ltb, any, ◌&&◌,
}
use real_time_risk_fraud_eng.Prelude.Keys.{◌==◌, str_key}
use real_time_risk_fraud_eng.Prelude.Distinct.{elem}
use real_time_risk_fraud_eng.Float.{Float, dyadic, le}
use real_time_risk_fraud_eng.Float.Order.{lt_of_le_of_lt}
use real_time_risk_fraud_eng.Drift.Report.{
  Severity, no_significant_drift, low_drift, moderate_drift, high_drift, index, severity_at, Named,
  max_index, names_at, aggregate_overall_severity, severity_from_psi,
}

-- A higher index of stability never gives a milder severity.
pub severity_from_psi_mono :
    (x y : Float) → le x y ≡ true → index (severity_from_psi x) ≤ index (severity_from_psi y)
unfolding severity_from_psi
severity_from_psi_mono x y h = ground (
  arith,
  lt_of_le_of_lt x y (dyadic 3602879701896397 55),
  lt_of_le_of_lt x y (dyadic 3602879701896397 54),
  lt_of_le_of_lt x y (dyadic 5404319552844595 54),
)

index_bound : (s : Severity) → index s ≤ 3
index_bound no_significant_drift = omega arith
index_bound low_drift = omega arith
index_bound moderate_drift = omega arith
index_bound high_drift = omega arith

index-severity_at : (n : ℕ) → n ≤ 3 → index (severity_at n) ≡ n
index-severity_at zero h = refl
index-severity_at (suc zero) h = refl
index-severity_at (suc (suc zero)) h = refl
index-severity_at (suc (suc (suc n))) h = omega arith

max_index_bound : (m : ℕ) (rs : List Named) → m ≤ 3 → max_index m rs ≤ 3
unfolding max_index
max_index_bound m [] h = h
max_index_bound m (r ∷ rs) h =
    max_index_bound (if ltb m (index r.severity) then index r.severity else m) rs
      (ground (arith, index_bound r.severity))

max_index_first : (m : ℕ) (rs : List Named) → m ≤ max_index m rs
unfolding max_index
max_index_first m [] = omega arith
max_index_first m (r ∷ rs) =
    let rest = max_index_first (if ltb m (index r.severity) then index r.severity else m) rs in
    ground arith

max_index-All : (m : ℕ) (rs : List Named) → All (λ r. index r.severity ≤ max_index m rs) rs
unfolding max_index
max_index-All m [] = tt
max_index-All m (r ∷ rs) =
    let m' = if ltb m (index r.severity) then index r.severity else m in
    let first = max_index_first m' rs in (ground arith, max_index-All m' rs)

max_index_attained :
    (m : ℕ) (rs : List Named)
    → (max_index m rs ≡ m) ⊎ (any (λ r. eqb (index r.severity) (max_index m rs)) rs ≡ true)
unfolding max_index
max_index_attained m [] = inl refl
max_index_attained m (r ∷ rs) =
    let rest = max_index_attained (if ltb m (index r.severity) then index r.severity else m) rs in
    ground arith

-- A name is given exactly if a result of the severity has it.
elem-names_at :
    (n : String) (s : Severity) (rs : List Named)
    → elem n (names_at s rs) ≡ any (λ r. r.name == n && eqb (index r.severity) (index s)) rs
unfolding names_at keep
elem-names_at n s [] = refl
elem-names_at n s (r ∷ rs) = ground (arith, elem-names_at n s rs)

-- Of a batch with a result, no result is more severe than the overall severity, at least one has it, and
-- a name contributes exactly if a result with that name has the overall severity.
pub aggregate_overall_severity-max :
    (r : Named) (rs : List Named) (n : String)
    → let o = aggregate_overall_severity (r ∷ rs) in
      All (λ x. index x.severity ≤ index o.severity) (r ∷ rs)
      × (any (λ x. eqb (index x.severity) (index o.severity)) (r ∷ rs) ≡ true)
      × (elem n o.contributing
          ≡ any (λ x. x.name == n && eqb (index x.severity) (index o.severity)) (r ∷ rs))
unfolding aggregate_overall_severity
aggregate_overall_severity-max r rs n =
    let top = max_index (index r.severity) rs in
    let same =
      index-severity_at top (max_index_bound (index r.severity) rs (index_bound r.severity)) in
    let (bound, met) =
      subst
        (λ n.
          All (λ x. index x.severity ≤ n) (r ∷ rs)
          × (any (λ x. eqb (index x.severity) n) (r ∷ rs) ≡ true))
        (sym same)
        (
          (max_index_first (index r.severity) rs, max_index-All (index r.severity) rs),
          attained (max_index_attained (index r.severity) rs),
        ) in
    (bound, met, elem-names_at n (severity_at top) (r ∷ rs))
  where
    attained :
        (max_index (index r.severity) rs ≡ index r.severity)
          ⊎ (any (λ x. eqb (index x.severity) (max_index (index r.severity) rs)) rs ≡ true)
        → any (λ x. eqb (index x.severity) (max_index (index r.severity) rs)) (r ∷ rs) ≡ true
    attained (inl h) = ground arith
    attained (inr h) = ground arith
