-- ===== src/Governance/Gates/Tests.antt =====
-- The gates on a candidate that is slightly better than the champion.
use real_time_risk_fraud_eng.Prelude.{◌≡◌, ◌↔◌, refl, none, some, List}
use real_time_risk_fraud_eng.Float.{Float, dyadic}
use real_time_risk_fraud_eng.Float.Exact.{exact_arithmetic}
use real_time_risk_fraud_eng.Result.{ok, err}
use real_time_risk_fraud_eng.Governance.Gates.{
  Gate, Versions, Eval, fail, type_error, run_all_gates, aggregate_gate_results, promote, required,
  gate_metric_availability,
}
use real_time_risk_fraud_eng.Governance.Gates.Promotion.{IsPromotable, promote-iff-IsPromotable}
use real_time_risk_fraud_eng.Governance.Gates.Totality.{HasVersions, missing_metric_raises}

abbrev versions : Versions
versions = record { feature_schema_version = some "v1"; decision_policy_version = some "p1" }

versions-HasVersions : HasVersions versions
versions-HasVersions = record { schema = ("v1", refl); policy = ("p1", refl) }

abbrev half : Float
half = dyadic 1 1

abbrev better : Float
better = dyadic 3 2

abbrev champion_eval : Eval
champion_eval = record {
  ranking = record { pr_auc = some (some half); roc_auc = some (some better) };
  policy_evaluation = none;
}

abbrev candidate_eval : Eval
candidate_eval = record {
  ranking = record { pr_auc = some (some better); roc_auc = some (some better) };
  policy_evaluation = none;
}

abbrev broken_eval : Eval
broken_eval = record {
  ranking = record { pr_auc = some none; roc_auc = some (some better) };
  policy_evaluation = none;
}

promote-iff-IsPromotable_example :
    ((gs : List Gate) × (run_all_gates exact_arithmetic versions versions champion_eval
          candidate_eval
        ≡ ok gs)
      × ((aggregate_gate_results gs).recommendation ≡ promote))
    ↔ IsPromotable exact_arithmetic versions versions champion_eval candidate_eval
promote-iff-IsPromotable_example =
    promote-iff-IsPromotable exact_arithmetic versions versions champion_eval candidate_eval

none_raises : required (some none) ≡ err type_error
unfolding required
none_raises = refl

missing_metric_raises_example :
    ((gate_metric_availability champion_eval broken_eval).result ≡ fail)
    × (run_all_gates exact_arithmetic versions versions champion_eval broken_eval ≡ err type_error)
missing_metric_raises_example =
    missing_metric_raises exact_arithmetic versions versions champion_eval broken_eval
      versions-HasVersions versions-HasVersions type_error none_raises
