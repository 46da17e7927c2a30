-- ===== src/Governance/Gates/Totality.antt =====
-- When `run_all_gates` returns, and when it raises.
use real_time_risk_fraud_eng.Prelude.{
  ◌≡◌, refl, false, String, Option, none, some, List, [], ◌∷◌, arith, map,
}
use real_time_risk_fraud_eng.Float.{Float, Arithmetic}
use real_time_risk_fraud_eng.Result.{ok, err}
use real_time_risk_fraud_eng.Governance.Gates.{
  Gate, fail, GateError, Metric, Eval, Versions, required, version, available, valid_ranking,
  gate_metric_availability, compatible, run_compatibility_checks, gate_schema_compatibility,
  gate_candidate_quality, gate_decision_policy_compatibility, difference,
  gate_no_unacceptable_degradation, blocked_gate, gate_operational_compatibility, run_all_gates,
}

-- Both versions are there.
pub record HasVersions (m : Versions) : Type 0 where
  pub schema : (v : String) × (m.feature_schema_version ≡ some v)
  pub policy : (v : String) × (m.decision_policy_version ≡ some v)

-- The key holds a float.
abbrev pub IsNumber : Metric → Type 0
IsNumber m = (x : Float) × (m ≡ some (some x))

-- There is no evaluation of a policy, or its share is a float.
abbrev pub IsRated : Option Metric → Type 0
IsRated none = Unit {0}
IsRated (some m) = IsNumber m

-- The names of the six gates, in the order of the calls.
abbrev pub gate_names : List String
gate_names =
    "required_metric_availability" ∷ "feature_schema_compatibility" ∷ "candidate_quality_threshold"
    ∷ "no_unacceptable_degradation" ∷ "operational_compatibility" ∷ "decision_policy_compatibility"
    ∷ []

module _ (A : Arithmetic) where
  blocked_gate_returns :
      (a b : Option Metric)
      → IsRated a
      → IsRated b
      → (g : Gate) × (blocked_gate A a b ≡ ok g) × (g.gate ≡ "operational_compatibility")
  unfolding blocked_gate difference
  blocked_gate_returns none b ha hb = (_, refl, refl)
  blocked_gate_returns (some a) none ha hb = (_, refl, refl)
  blocked_gate_returns (some a) (some b) (x, hx) (y, hy) = rw (hx, hy) (_, refl, refl)

  module _ (cm km : Versions) (c k : Eval) (vc : HasVersions cm) (vk : HasVersions km) where
    -- With both versions, PR-AUCs and shares given, the six gates all answer, in the stated order.
    run_all_gates_returns :
        IsNumber c.ranking.pr_auc
        → IsNumber k.ranking.pr_auc
        → IsRated c.policy_evaluation
        → IsRated k.policy_evaluation
        → (gs : List Gate) × (run_all_gates A cm km c k ≡ ok gs)
          × (map (λ g. g.gate) gs ≡ gate_names)
    unfolding run_all_gates gate_schema_compatibility gate_decision_policy_compatibility version
        compatible run_compatibility_checks gate_candidate_quality required
        gate_no_unacceptable_degradation gate_operational_compatibility difference
        gate_metric_availability
    run_all_gates_returns (x, hx) (y, hy) rc rk =
        let (g, got, name) = blocked_gate_returns c.policy_evaluation k.policy_evaluation rc rk in
        let (v, hv) = vc.schema in
        let (v', hv') = vk.schema in
        let (p, hp) = vc.policy in
        let (p', hp') = vk.policy in rw (hx, hy, hv, hv', hp, hp', got) (_, refl, rw name refl)

    -- With both versions given, where the candidate's PR-AUC is missing or None, the availability
    -- gate is FAIL, but `run_all_gates` raises and returns no gate at all.
    pub missing_metric_raises :
        (e : GateError)
        → required k.ranking.pr_auc ≡ err e
        → ((gate_metric_availability c k).result ≡ fail) × (run_all_gates A cm km c k ≡ err e)
    unfolding run_all_gates gate_schema_compatibility version compatible run_compatibility_checks
        gate_candidate_quality gate_metric_availability valid_ranking required available
    missing_metric_raises e h =
        let (v, hv) = vc.schema in
        let (v', hv') = vk.schema in
        let (p, hp) = vc.policy in
        let (p', hp') = vk.policy in
        let gone = unavailable k.ranking.pr_auc e h in (ground arith, rw (hv, hv', hp, hp', h) refl)
      where
        unavailable : (m : Metric) (e : GateError) → required m ≡ err e → available m ≡ false
        unavailable none e h = refl
        unavailable (some none) e h = refl
        unavailable (some (some x)) e h = cc
