-- ===== src/Engine/Answers.antt =====
-- The answer for given features: its decision is the documented rule at its score, and asking for
-- an explanation changes nothing else.
use real_time_risk_fraud_eng.Prelude.{
  ◌≡◌, Bool, true, false, String, [], ◌∷◌, arith, Bool-cases, inl, inr, if◌then◌else◌,
}
use real_time_risk_fraud_eng.Prelude.Keys.{Dict}
use real_time_risk_fraud_eng.Result.{Result-cases, ok, err}
use real_time_risk_fraud_eng.Float.{Float, Arithmetic, is_nan}
use real_time_risk_fraud_eng.Value.{Value}
use real_time_risk_fraud_eng.Decision.Policy.{Policy, decide, nan_score}
use real_time_risk_fraud_eng.Decision.Policy.Validity.{IsValid}
use real_time_risk_fraud_eng.Decision.Policy.Classify.{classify, decide-eq-classify, decide_nan}
use real_time_risk_fraud_eng.State.Entity.{Features}
use real_time_risk_fraud_eng.Engine.Validation.{expected, numeric_columns}
use real_time_risk_fraud_eng.Engine.Assess.{
  Outcome, Parts, not_asked, assess, raw_row, first_decision, policy_error,
}

-- The decision of an array with one score.
one_decision :
    (p : Policy) (s : Float)
    → IsValid p
    → first_decision (decide p (s ∷ []))
      ≡ (if is_nan s then err (policy_error nan_score) else ok (classify p s))
unfolding first_decision
one_decision p s v = elim (Bool-cases (is_nan s)) [
  | inl bad ↦ rw (decide_nan p (s ∷ []) (rw bad), bad)
  | inr number ↦ rw (decide-eq-classify p v (s ∷ []) (rw number), number)
]

module _ {K X : Type 0} (A : Arithmetic) (parts : Parts K X) where
  -- With a valid policy every answer has a score that is a number, and the decision that the
  -- documented rule gives for it; it reports the policy's own name, the features that it was given,
  -- and that the state is updated.
  pub assess-classify :
      (explain : Bool) (txn : Dict String Value) (f : Features) (o : Outcome X)
      → IsValid parts.policy
      → assess A parts explain txn f ≡ ok o
      → (is_nan o.risk_score ≡ false)
        × (o.decision ≡ classify parts.policy o.risk_score)
        × (o.behavioral_features ≡ f)
        × (o.policy_name ≡ parts.policy.name)
        × (o.state_updated ≡ true)
  unfolding assess
  assess-classify explain txn f o v h =
      elim (Result-cases
        (parts.predict (numeric_columns parts.schema) (raw_row (expected parts.schema) txn) f)) [
          | inl (score, e) ↦ ground (arith, one_decision parts.policy score v)
          | inr (x, e) ↦ ground arith
        ]

  -- If the assessment with an explanation returns, the one without returns the same result, but for
  -- the explanation.
  assess_explained :
      (txn : Dict String Value) (f : Features) (o : Outcome X)
      → assess A parts true txn f ≡ ok o
      → assess A parts false txn f ≡ ok (record o { explanation = not_asked })
  unfolding assess
  assess_explained txn f o h = ground arith
