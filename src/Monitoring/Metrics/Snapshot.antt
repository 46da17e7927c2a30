-- ===== src/Monitoring/Metrics/Snapshot.antt =====
-- `MetricsRegistry.snapshot` (src/monitoring/metrics.py), without the uptime.
use real_time_risk_fraud_eng.Prelude.{
  ℕ, ◌≡◌, not, String, Option, none, some, [], ◌∷◌, if◌then◌else◌, arith, is_some, eqb,
}
use real_time_risk_fraud_eng.Prelude.Keys.{Dict, lookup, str_key}
use real_time_risk_fraud_eng.Float.{Float, zero_float, Arithmetic}
use real_time_risk_fraud_eng.State.Entity.{float_of}
use real_time_risk_fraud_eng.Monitoring.Metrics.{MetricsRegistry}
use real_time_risk_fraud_eng.Monitoring.Metrics.Totals.{total}
use real_time_risk_fraud_eng.Monitoring.Metrics.Consistency.{IsConsistent}

-- The averages and the distribution, beside the registry whose counters are copied.
pub record Snapshot : Type 0 where
  pub counters : MetricsRegistry
  pub avg_request_latency_ms : Option Float
  pub avg_latency_by_endpoint : Dict String Float
  pub avg_prediction_latency_ms : Option Float
  pub decisions_total : ℕ
  pub distribution : Dict String Float
  pub mean_risk_score : Option Float
  pub mean_transaction_amount : Option Float
  pub avg_explanation_latency_ms : Option Float
  pub avg_lookup_latency_ms : Option Float

module _ (A : Arithmetic) where
  open A use {div}

  -- `total / count if count else None`
  unfoldable pub average : Float → ℕ → Option Float
  average sum n = if eqb n 0 then none else some (div sum (float_of n))

  or_zero : Option Float → Float
  or_zero none = zero_float
  or_zero (some x) = x

  -- {ep: sums[ep] / counts[ep] for ep in counts}
  averages : Dict String Float → Dict String ℕ → Dict String Float
  unfolding or_zero
  averages sums [] = []
  averages sums ((ep, n) ∷ counts) =
      (ep, div (or_zero (lookup ep sums)) (float_of n)) ∷ averages sums counts

  shares : ℕ → Dict String ℕ → Dict String Float
  shares all [] = []
  shares all ((k, n) ∷ d) = (k, div (float_of n) (float_of all)) ∷ shares all d

  -- `snapshot`
  unfoldable pub snapshot : MetricsRegistry → Snapshot
  unfolding averages shares
  snapshot m = record {
    counters = m;
    avg_request_latency_ms = average m.request_latency_sum_ms m.request_latency_count;
    avg_latency_by_endpoint =
        averages m.request_latency_by_endpoint_sum_ms m.request_latency_by_endpoint_count;
    avg_prediction_latency_ms = average m.prediction_latency_sum_ms m.prediction_latency_count;
    decisions_total = total m.decision_counts;
    distribution =
        if eqb (total m.decision_counts) 0
        then []
        else shares (total m.decision_counts) m.decision_counts;
    mean_risk_score = average m.risk_score_sum m.risk_score_count;
    mean_transaction_amount = average m.transaction_amount_sum m.transaction_amount_count;
    avg_explanation_latency_ms = average m.explanation_latency_sum_ms m.explanation_latency_count;
    avg_lookup_latency_ms = average m.redis_lookup_latency_sum_ms m.redis_lookup_count;
  }

  average_some : (x : Float) (n : ℕ) → is_some (average x n) ≡ not (eqb n 0)
  unfolding average
  average_some x n = ground arith

  -- A snapshot of a consistent registry gives the request average exactly where a request was counted,
  -- and the mean score and the prediction average exactly where a prediction succeeded.
  pub snapshot_averages :
      (m : MetricsRegistry)
      → IsConsistent m
      → (is_some (snapshot m).avg_request_latency_ms ≡ not (eqb m.request_count_total 0))
        × (is_some (snapshot m).avg_prediction_latency_ms ≡ not (eqb m.prediction_successes 0))
        × (is_some (snapshot m).mean_risk_score ≡ not (eqb m.prediction_successes 0))
  unfolding snapshot
  snapshot_averages m c = (
    rw⁻¹ c.timed_requests (average_some m.request_latency_sum_ms m.request_latency_count),
    rw⁻¹ c.timed_predictions (average_some m.prediction_latency_sum_ms m.prediction_latency_count),
    rw⁻¹ c.scored (average_some m.risk_score_sum m.risk_score_count),
  )
