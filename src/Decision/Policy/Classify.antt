-- ===== src/Decision/Policy/Classify.antt =====
-- The two masked assignments of `decide` make the three-way rule that the module documents.
use real_time_risk_fraud_eng.Prelude.{
  ℕ, ◌≤◌, ◌≡◌, refl, true, false, List, [], ◌∷◌, map, arith, any, if◌then◌else◌, Bool-cases, inl,
  inr,
}
use real_time_risk_fraud_eng.Float.{Float, is_nan, lt, le, one_float}
use real_time_risk_fraud_eng.Float.Order.{
  lt-eq-not-le, lt_of_le_of_lt, lt_of_lt_of_le, lt→le, not_nan_of_le_left,
}
use real_time_risk_fraud_eng.Value.{value_of}
use real_time_risk_fraud_eng.Result.{ok, err}
use real_time_risk_fraud_eng.Decision.Policy.{
  Policy, Decision, approve, review, block, nan_score, decide, assign, full,
}
use real_time_risk_fraud_eng.Decision.Policy.Validity.{IsValid}

-- The rule of the module's documentation, for one score.
unfoldable pub classify : Policy → Float → Decision
classify p s =
    if lt s (value_of p.approve_at)
    then approve
    else if lt s (value_of p.block_at)
    then review
    else block

-- How severe a decision is.
abbrev pub severity : Decision → ℕ
severity approve = 0
severity review = 1
severity block = 2

module _ (p : Policy) (v : IsValid p) where
  -- One element of the array after both assignments.
  assigned_decision :
      (s : Float)
      → is_nan s ≡ false
      → (if le (value_of p.block_at) s
          then block
          else if lt s (value_of p.approve_at)
          then approve
          else review)
        ≡ classify p s
  unfolding classify
  assigned_decision s h = ground (
    arith,
    lt-eq-not-le s (value_of p.block_at),
    lt_of_lt_of_le s (value_of p.approve_at) (value_of p.block_at),
    lt→le s (value_of p.block_at),
    not_nan_of_le_left (value_of p.block_at) one_float,
    v.block_high,
    v.ordered,
  )

  assign_both :
      (scores : List Float)
      → any is_nan scores ≡ false
      → assign
          (λ s. le (value_of p.block_at) s)
          block
          scores
          (assign (λ s. lt s (value_of p.approve_at)) approve scores (full review scores))
        ≡ map (classify p) scores
  unfolding assign full
  assign_both [] h = refl
  assign_both (s ∷ scores) h = elim (Bool-cases (is_nan s)) [
    | inl nan_first ↦ ground arith
    | inr number_first ↦
        cc (assigned_decision s number_first, assign_both scores (rw number_first at h))
  ]

  -- A valid policy decides an array with no NaN score by score, each by the documented rule.
  pub decide-eq-classify :
      (scores : List Float)
      → any is_nan scores ≡ false
      → decide p scores ≡ ok (map (classify p) scores)
  unfolding decide
  decide-eq-classify scores h = rw (h, assign_both scores h)

-- The rule is monotone.
pub classify_mono :
    (p : Policy) (s t : Float) → le s t ≡ true → severity (classify p s) ≤ severity (classify p t)
unfolding classify
classify_mono p s t h =
    ground
      (arith, lt_of_le_of_lt s t (value_of p.approve_at), lt_of_le_of_lt s t (value_of p.block_at))

-- Of two scores that are numbers, in order, a valid policy gives the higher one no milder decision.
decide_mono :
    (p : Policy) (v : IsValid p) (s t : Float)
    → is_nan s ≡ false
    → is_nan t ≡ false
    → le s t ≡ true
    → (d e : Decision) × (decide p (s ∷ t ∷ []) ≡ ok (d ∷ e ∷ [])) × (severity d ≤ severity e)
decide_mono p v s t hs ht h = (
  classify p s,
  classify p t,
  decide-eq-classify p v (s ∷ t ∷ []) (rw (hs, ht)),
  classify_mono p s t h,
)

-- `decide` raises when some score is NaN.
pub decide_nan :
    (p : Policy) (scores : List Float) → any is_nan scores ≡ true → decide p scores ≡ err nan_score
unfolding decide
decide_nan p scores h = rw h
