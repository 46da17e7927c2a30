-- ===== src/Decision/Evaluation/Partition.antt =====
-- The buckets of an evaluation partition the transactions, the frauds and the legitimate ones.
use real_time_risk_fraud_eng.Prelude.{
  ℕ, ◌+◌, ◌≤◌, ◌≡◌, refl, Bool, List, [], ◌∷◌, length, count, arith, any, false, sym, ◌∙◌,
}
use real_time_risk_fraud_eng.Float.{Float, is_nan}
use real_time_risk_fraud_eng.Result.{ok}
use real_time_risk_fraud_eng.Decision.Policy.{Policy, Decision, approve, review, block}
use real_time_risk_fraud_eng.Decision.Policy.Shape.{decide_total}
use real_time_risk_fraud_eng.Decision.Evaluation.{
  Evaluation, evaluate_policy, report_on, in_bucket, fraud_where, fraud_total, same_decision,
}

sizes_partition :
    (ds : List Decision)
    → in_bucket approve ds + in_bucket review ds + in_bucket block ds ≡ length ds
unfolding in_bucket count same_decision
sizes_partition [] = refl
sizes_partition (approve ∷ ds) = omega (arith, sizes_partition ds)
sizes_partition (review ∷ ds) = omega (arith, sizes_partition ds)
sizes_partition (block ∷ ds) = omega (arith, sizes_partition ds)

fraud_partition :
    (ys : List Bool) (ds : List Decision)
    → length ys ≡ length ds
    → fraud_where approve ys ds + fraud_where review ys ds + fraud_where block ys ds
      ≡ fraud_total ys
unfolding fraud_where fraud_total count same_decision
fraud_partition [] ds e = refl
fraud_partition (y ∷ ys) [] e = absurd (omega arith)
fraud_partition (y ∷ ys) (approve ∷ ds) e = ground (arith, fraud_partition ys ds)
fraud_partition (y ∷ ys) (review ∷ ds) e = ground (arith, fraud_partition ys ds)
fraud_partition (y ∷ ys) (block ∷ ds) e = ground (arith, fraud_partition ys ds)

fraud-le-size :
    (d : Decision) (ys : List Bool) (ds : List Decision) → fraud_where d ys ds ≤ in_bucket d ds
unfolding fraud_where in_bucket count
fraud-le-size d [] ds = omega arith
fraud-le-size d (y ∷ ys) [] = omega arith
fraud-le-size d (y ∷ ys) (e ∷ ds) = ground (arith, fraud-le-size d ys ds)

-- What a report accounts for.
pub record IsAccounted (ev : Evaluation) (n : ℕ) (fraud : ℕ) : Type 0 where
  pub sizes : ev.approved.size + ev.reviewed.size + ev.blocked.size ≡ n
  pub frauds : ev.approved.fraud_count + ev.reviewed.fraud_count + ev.blocked.fraud_count ≡ fraud
  pub legitimate :
      ev.approved.legitimate_count + ev.reviewed.legitimate_count + ev.blocked.legitimate_count
        + fraud
      ≡ n
  pub captured : ev.captured_review_plus_block + ev.missed_in_approve ≡ fraud

report_on-IsAccounted :
    (p : Policy) (ys : List Bool) (ds : List Decision)
    → length ys ≡ length ds
    → IsAccounted (report_on p ys ds) (length ys) (fraud_total ys)
unfolding report_on
report_on-IsAccounted p ys ds e = omega (
  arith,
  e,
  sizes_partition ds,
  fraud_partition ys ds e,
  fraud-le-size approve ys ds,
  fraud-le-size review ys ds,
  fraud-le-size block ys ds,
)

-- One label and one number for each transaction: the evaluation returns a report, in which each
-- transaction, each fraud and each legitimate transaction is in exactly one of the three buckets,
-- and every fraud is either captured by REVIEW and BLOCK or missed in APPROVE.
pub evaluate_policy-IsAccounted :
    (ys : List Bool) (scores : List Float) (p : Policy)
    → any is_nan scores ≡ false
    → length ys ≡ length scores
    → (ev : Evaluation) × (evaluate_policy ys scores p ≡ ok ev)
      × IsAccounted ev (length ys) (fraud_total ys)
unfolding evaluate_policy
evaluate_policy-IsAccounted ys scores p h e =
    let (ds, decided, same) = decide_total p scores h in
    (
      report_on p ys ds,
      rw decided (ground (arith, e, same)),
      report_on-IsAccounted p ys ds (e ∙ sym same),
    )
