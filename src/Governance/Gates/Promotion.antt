-- ===== src/Governance/Gates/Promotion.antt =====
-- The recommendation PROMOTE, against the conditions that it stands for.
use text.Mathlib.TextEquality.{eq_iff}
use real_time_risk_fraud_eng.Prelude.{
  ◌≡◌, ◌↔◌, refl, sym, ap, ◌∙◌, Bool, true, String, Option, none, some, List, [], ◌∷◌, arith, inl,
  inr,
}
use real_time_risk_fraud_eng.Prelude.Keys.{str_key, equal_refl}
use real_time_risk_fraud_eng.Float.{Float, le, Arithmetic}
use real_time_risk_fraud_eng.Result.{ok, ◌>>=◌, bind_ok, Result-cases}
use real_time_risk_fraud_eng.Governance.Gates.{
  Gate, pass, Metric, Eval, Versions, min_candidate_pr_auc, review_zone_pr_auc_degradation,
  max_acceptable_legit_blocked_increase, gate_epsilon, negated, required, version, valid_ranking,
  gate_metric_availability, compatible, run_compatibility_checks, gate_schema_compatibility,
  gate_candidate_quality, gate_decision_policy_compatibility, difference, degradation,
  gate_no_unacceptable_degradation, blocked_gate, gate_operational_compatibility, run_all_gates,
  promote, aggregate_gate_results,
}
use real_time_risk_fraud_eng.Governance.Gates.Verdict.{
  stated_rule, stated_rule-promote, promote-stated_rule, aggregate_gate_results-eq-stated_rule,
}

required_ok : (m : Metric) (x : Float) → required m ≡ ok x → m ≡ some (some x)
unfolding required
required_ok none x h = cc
required_ok (some none) x h = cc
required_ok (some (some y)) x h = ground arith

compatible_ok :
    (a b : Option String) → compatible a b ≡ ok true → (v : String) × (a ≡ some v) × (b ≡ some v)
unfolding compatible version
compatible_ok none b h = cc
compatible_ok (some a) none h = cc
compatible_ok (some a) (some b) h = (a, refl, ground (arith, eq_iff a b))

ok_compatible :
    (a b : Option String) (v : String) → a ≡ some v → b ≡ some v → compatible a b ≡ ok true
unfolding compatible version
ok_compatible a b v h k = rw (h, k) (ap ok (equal_refl v))

difference_ok :
    (A : Arithmetic) (a b : Metric) (d : Float)
    → difference A a b ≡ ok d
    → (x y : Float) × (a ≡ some (some x)) × (b ≡ some (some y)) × (d ≡ A.sub x y)
unfolding difference
difference_ok A none b d h = cc
difference_ok A (some a) none d h = cc
difference_ok A (some none) (some b) d h = cc
difference_ok A (some (some a)) (some none) d h = cc
difference_ok A (some (some a)) (some (some b)) d h = (a, b, refl, refl, ground arith)

-- What PROMOTE vouches for: the same schema and the same policy version on both sides, all four
-- metrics there and no NaN, the candidate's PR-AUC at least the minimum and at most the review zone
-- below the champion's, and a rise of the blocked legitimate share within its bound.
pub record IsPromotable (A : Arithmetic) (cm km : Versions) (c k : Eval) : Type 0 where
  pub schema :
      (v : String) × (cm.feature_schema_version ≡ some v) × (km.feature_schema_version ≡ some v)
  pub policy :
      (v : String) × (cm.decision_policy_version ≡ some v) × (km.decision_policy_version ≡ some v)
  pub available : (valid_ranking c.ranking ≡ true) × (valid_ranking k.ranking ≡ true)
  pub quality :
      (x : Float) × (k.ranking.pr_auc ≡ some (some x)) × (le min_candidate_pr_auc x ≡ true)
  pub no_degradation :
      (x y : Float) × (k.ranking.pr_auc ≡ some (some x))
      × (c.ranking.pr_auc ≡ some (some y))
      × (le (A.sub (negated review_zone_pr_auc_degradation) gate_epsilon) (A.sub x y) ≡ true)
  pub operational :
      (x y : Float) × (k.policy_evaluation ≡ some (some (some x)))
      × (c.policy_evaluation ≡ some (some (some y)))
      × (le (A.sub x y) max_acceptable_legit_blocked_increase ≡ true)

-- The six gates, all passed, with the two differences they report.
passing : Float → Float → List Gate
passing degraded blocked =
    record { gate = "required_metric_availability"; result = pass; delta = none }
    ∷ record { gate = "feature_schema_compatibility"; result = pass; delta = none }
    ∷ record { gate = "candidate_quality_threshold"; result = pass; delta = none }
    ∷ record { gate = "no_unacceptable_degradation"; result = pass; delta = some degraded }
    ∷ record { gate = "operational_compatibility"; result = pass; delta = some blocked }
    ∷ record { gate = "decision_policy_compatibility"; result = pass; delta = none }
    ∷ []

module _ (A : Arithmetic) (cm km : Versions) (c k : Eval) where
  checks_ok :
      (x : Bool × Bool)
      → run_compatibility_checks cm km ≡ ok x
      → (compatible cm.feature_schema_version km.feature_schema_version ≡ ok x.0)
        × (compatible cm.decision_policy_version km.decision_policy_version ≡ ok x.1)
  unfolding run_compatibility_checks
  checks_ok x h = (ground arith, ground arith)

  -- The six gates, where all of them returned.
  run_all_gates_ok :
      (gs : List Gate)
      → run_all_gates A cm km c k ≡ ok gs
      → (schema quality degraded operational policy : Gate) × (gate_schema_compatibility cm km
          ≡ ok schema)
        × (gate_candidate_quality k ≡ ok quality)
        × (gate_no_unacceptable_degradation A c k ≡ ok degraded)
        × (gate_operational_compatibility A c k ≡ ok operational)
        × (gate_decision_policy_compatibility cm km ≡ ok policy)
        × (gs
            ≡ gate_metric_availability c k
              ∷ schema
              ∷ quality
              ∷ degraded
              ∷ operational
              ∷ policy
              ∷ [])
  unfolding run_all_gates
  run_all_gates_ok gs h =
      let (s, hs, h1) =
        bind_ok (gate_schema_compatibility cm km)
          (λ schema. gate_candidate_quality k >>= λ quality.
            gate_no_unacceptable_degradation A c k >>= λ degraded.
            gate_operational_compatibility A c k >>= λ operational.
            gate_decision_policy_compatibility cm km >>= λ policy. ok (
              gate_metric_availability c k
              ∷ schema
              ∷ quality
              ∷ degraded
              ∷ operational
              ∷ policy
              ∷ []))
          gs h in
      let (q, hq, h2) =
        bind_ok (gate_candidate_quality k)
          (λ quality. gate_no_unacceptable_degradation A c k >>= λ degraded.
            gate_operational_compatibility A c k >>= λ operational.
            gate_decision_policy_compatibility cm km >>= λ policy.
            ok (gate_metric_availability c k ∷ s ∷ quality ∷ degraded ∷ operational ∷ policy ∷ []))
          gs h1 in
      let (d, hd, h3) =
        bind_ok (gate_no_unacceptable_degradation A c k)
          (λ degraded. gate_operational_compatibility A c k >>= λ operational.
            gate_decision_policy_compatibility cm km >>= λ policy.
            ok (gate_metric_availability c k ∷ s ∷ q ∷ degraded ∷ operational ∷ policy ∷ []))
          gs h2 in
      let (o, ho, h4) =
        bind_ok (gate_operational_compatibility A c k)
          (λ operational. gate_decision_policy_compatibility cm km >>= λ policy.
            ok (gate_metric_availability c k ∷ s ∷ q ∷ d ∷ operational ∷ policy ∷ []))
          gs h3 in
      let (p, hp, h5) =
        bind_ok (gate_decision_policy_compatibility cm km)
          (λ policy. ok (gate_metric_availability c k ∷ s ∷ q ∷ d ∷ o ∷ policy ∷ [])) gs h4 in
      (s, q, d, o, p, hs, hq, hd, ho, hp, ground arith)

  schema_pass :
      (g : Gate)
      → gate_schema_compatibility cm km ≡ ok g
      → g.result ≡ pass
      → compatible cm.feature_schema_version km.feature_schema_version ≡ ok true
  unfolding gate_schema_compatibility
  schema_pass g h passed = elim (Result-cases (run_compatibility_checks cm km)) [
    | inl (x, e) ↦ let (a, b) = checks_ok x e in ground arith
    | inr (x, e) ↦ ground arith
  ]

  policy_pass :
      (g : Gate)
      → gate_decision_policy_compatibility cm km ≡ ok g
      → g.result ≡ pass
      → compatible cm.decision_policy_version km.decision_policy_version ≡ ok true
  unfolding gate_decision_policy_compatibility
  policy_pass g h passed = elim (Result-cases (run_compatibility_checks cm km)) [
    | inl (x, e) ↦ let (a, b) = checks_ok x e in ground arith
    | inr (x, e) ↦ ground arith
  ]

  available_pass :
      (gate_metric_availability c k).result ≡ pass
      → (valid_ranking c.ranking ≡ true) × (valid_ranking k.ranking ≡ true)
  unfolding gate_metric_availability
  available_pass h = (ground arith, ground arith)

  quality_pass :
      (g : Gate)
      → gate_candidate_quality k ≡ ok g
      → g.result ≡ pass
      → (x : Float) × (k.ranking.pr_auc ≡ some (some x)) × (le min_candidate_pr_auc x ≡ true)
  unfolding gate_candidate_quality
  quality_pass g h passed = elim (Result-cases (required k.ranking.pr_auc)) [
    | inl (x, e) ↦ (x, required_ok k.ranking.pr_auc x e, ground arith)
    | inr (x, e) ↦ ground arith
  ]

  degradation_pass :
      (g : Gate)
      → gate_no_unacceptable_degradation A c k ≡ ok g
      → g.result ≡ pass
      → (x y : Float) × (k.ranking.pr_auc ≡ some (some x))
        × (c.ranking.pr_auc ≡ some (some y))
        × (le (A.sub (negated review_zone_pr_auc_degradation) gate_epsilon) (A.sub x y) ≡ true)
  unfolding gate_no_unacceptable_degradation degradation
  degradation_pass g h passed =
      elim (Result-cases (difference A k.ranking.pr_auc c.ranking.pr_auc)) [
        | inl (d, e) ↦
            let (x, y, hx, hy, hd) = difference_ok A k.ranking.pr_auc c.ranking.pr_auc d e in
            (x, y, hx, hy, ground arith)
        | inr (x, e) ↦ ground arith
      ]

  blocked_pass :
      (a b : Option Metric) (g : Gate)
      → blocked_gate A a b ≡ ok g
      → g.result ≡ pass
      → (x y : Float) × (b ≡ some (some (some x)))
        × (a ≡ some (some (some y)))
        × (le (A.sub x y) max_acceptable_legit_blocked_increase ≡ true)
  unfolding blocked_gate
  blocked_pass none b g h passed = ground arith
  blocked_pass (some a) none g h passed = ground arith
  blocked_pass (some a) (some b) g h passed = elim (Result-cases (difference A b a)) [
    | inl (d, e) ↦
        let (x, y, hx, hy, hd) = difference_ok A b a d e in
        (x, y, ap some hx, ap some hy, ground arith)
    | inr (x, e) ↦ ground arith
  ]

  promote_needs :
      (gs : List Gate)
      → run_all_gates A cm km c k ≡ ok gs
      → (aggregate_gate_results gs).recommendation ≡ promote
      → IsPromotable A cm km c k
  unfolding gate_operational_compatibility
  promote_needs gs h verdict =
      let (s, q, d, o, p, hs, hq, hd, ho, hp, same) = run_all_gates_ok gs h in
      let stated : stated_rule gs ≡ promote =
        sym ((aggregate_gate_results-eq-stated_rule gs).0) ∙ verdict in
      let (a', (s', (q', (d', (o', (p', _)))))) = stated_rule-promote _ (rw same at stated) in
      record {
        schema =
            compatible_ok cm.feature_schema_version km.feature_schema_version (schema_pass s hs s');
        policy =
            compatible_ok cm.decision_policy_version km.decision_policy_version
              (policy_pass p hp p');
        available = available_pass a';
        quality = quality_pass q hq q';
        no_degradation = degradation_pass d hd d';
        operational = blocked_pass c.policy_evaluation k.policy_evaluation o ho o';
      }

  promote_suffices :
      IsPromotable A cm km c k
      → (gs : List Gate) × (run_all_gates A cm km c k ≡ ok gs)
        × ((aggregate_gate_results gs).recommendation ≡ promote)
  unfolding run_all_gates gate_schema_compatibility gate_decision_policy_compatibility
      run_compatibility_checks gate_candidate_quality required gate_no_unacceptable_degradation
      gate_operational_compatibility difference blocked_gate degradation gate_metric_availability
      passing
  promote_suffices i =
      let (v, v1, v2) = i.schema in
      let (w, w1, w2) = i.policy in
      let schema = ok_compatible cm.feature_schema_version km.feature_schema_version v v1 v2 in
      let policy = ok_compatible cm.decision_policy_version km.decision_policy_version w w1 w2 in
      let (x, hx, good) = i.quality in
      let (x', y, hx', hy, near) = i.no_degradation in
      let (bx, bY, hbx, hby, low) = i.operational in
      let same : x' ≡ x = ground arith in
      let near' = rw same at near in
      (
        passing (A.sub x y) (A.sub bx bY),
        rw (schema, policy, i.available.0, i.available.1, hx, hy, hbx, hby, good, near', low) refl,
        (aggregate_gate_results-eq-stated_rule (passing (A.sub x y) (A.sub bx bY))).0
            ∙ promote-stated_rule (passing (A.sub x y) (A.sub bx bY))
                (refl, (refl, (refl, (refl, (refl, (refl, tt)))))),
      )

  -- The gates run through and recommend PROMOTE exactly where the conditions of `IsPromotable` hold: among
  -- them, the candidate's PR-AUC is at most 0.005 worse.
  pub promote-iff-IsPromotable :
      ((gs : List Gate) × (run_all_gates A cm km c k ≡ ok gs)
        × ((aggregate_gate_results gs).recommendation ≡ promote))
      ↔ IsPromotable A cm km c k
  promote-iff-IsPromotable = (λ (gs, h, verdict). promote_needs gs h verdict, promote_suffices)
