-- ===== src/Decision/Policy/Shape.antt =====
-- The arrays of `decide` have the shape of the scores.
use real_time_risk_fraud_eng.Prelude.{
  ◌≡◌, refl, sym, Bool, false, List, [], ◌∷◌, arith, any, length,
}
use real_time_risk_fraud_eng.Float.{Float, is_nan, lt, le}
use real_time_risk_fraud_eng.Value.{value_of}
use real_time_risk_fraud_eng.Result.{ok}
use real_time_risk_fraud_eng.Decision.Policy.{
  Policy, Decision, approve, review, block, decide, assign, full,
}

length-assign :
    (test : Float → Bool) (d : Decision) (scores : List Float) (ds : List Decision)
    → length scores ≡ length ds
    → length (assign test d scores ds) ≡ length scores
unfolding assign
length-assign test d [] ds e = sym e
length-assign test d (s ∷ scores) [] e = sym e
length-assign test d (s ∷ scores) (x ∷ ds) e = omega (arith, length-assign test d scores ds)

length-full : (d : Decision) (scores : List Float) → length (full d scores) ≡ length scores
unfolding full
length-full d [] = refl
length-full d (s ∷ scores) = omega (arith, length-full d scores)

-- With no NaN among the scores the call returns, one decision for each score.
pub decide_total :
    (p : Policy) (scores : List Float)
    → any is_nan scores ≡ false
    → (ds : List Decision) × (decide p scores ≡ ok ds) × (length ds ≡ length scores)
unfolding decide
decide_total p scores h =
    let first = assign (λ s. lt s (value_of p.approve_at)) approve scores (full review scores) in
    let second = assign (λ s. le (value_of p.block_at) s) block scores first in
    let shape : length first ≡ length scores =
      length-assign _ approve scores _ (sym (length-full review scores)) in
    (second, rw h, length-assign _ block scores first (sym shape))
