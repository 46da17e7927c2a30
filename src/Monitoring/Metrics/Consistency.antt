-- ===== src/Monitoring/Metrics/Consistency.antt =====
-- The counters of the registry agree with one another after any sequence of recordings.
use real_time_risk_fraud_eng.Prelude.{
  ℕ, ◌+◌, ◌≤◌, ◌≡◌, Bool, true, false, String, Option, none, some, List, [], ◌∷◌, if◌then◌else◌,
  arith, All, ap,
}
use Prim.Native.Nat.{◌/◌}
use real_time_risk_fraud_eng.Prelude.Keys.{◌==◌, str_key, int_key}
use real_time_risk_fraud_eng.Result.{ok}
use real_time_risk_fraud_eng.Float.{Float, Arithmetic}
use real_time_risk_fraud_eng.Monitoring.Metrics.{
  MetricsRegistry, bucket_label, bump, record_request, record_prediction_attempt,
  record_prediction_success, count_score, count_rest, count_amount,
  record_engine_validation_failure, record_request_validation_failure,
  record_engine_not_initialized, record_internal_error, record_explanation, record_redis_lookup,
  record_streaming_message, record_model_load_time,
}
use real_time_risk_fraud_eng.Monitoring.Metrics.Totals.{total, total-bump, total-bump_known}

-- One call of a recording method.
pub data Recording : Type 0 where
  request : String → ℕ → Float → Recording
  attempt : Recording
  success : String → Float → Float → Option Float → Recording
  engine_validation request_validation not_initialized internal : Recording
  explanation : Float → Recording
  redis_lookup : Float → Bool → Recording
  streaming : String → Recording
  model_load : Float → Recording

-- Every request is in one endpoint and in one status class; every scored prediction is in one bucket;
-- each failure of a prediction is one of the engine's validation.
pub record IsConsistent (m : MetricsRegistry) : Type 0 where
  pub endpoints : total m.request_count_by_endpoint ≡ m.request_count_total
  pub classes : total m.request_count_by_status_class ≡ m.request_count_total
  pub timed_requests : m.request_latency_count ≡ m.request_count_total
  pub timed_endpoints : m.request_latency_by_endpoint_count ≡ m.request_count_by_endpoint
  pub scored : m.risk_score_count ≡ m.prediction_successes
  pub timed_predictions : m.prediction_latency_count ≡ m.prediction_successes
  pub buckets : total m.risk_score_bucket_counts ≡ m.risk_score_count
  pub decided : total m.decision_counts ≤ m.prediction_successes
  pub amounts : m.transaction_amount_count ≤ m.prediction_successes
  pub failures : m.engine_validation_failures ≡ m.prediction_failures
  pub lookups : m.redis_lookup_failures ≤ m.redis_lookup_count

module _ (A : Arithmetic) where
  -- The registry after a call, whether it returned or raised.
  abbrev pub after : Recording → MetricsRegistry → MetricsRegistry
  after (request endpoint code ms) m = record_request A endpoint code ms m
  after attempt m = record_prediction_attempt A m
  after (success decision score ms amount) m =
      (record_prediction_success A decision score ms amount m).1
  after engine_validation m = record_engine_validation_failure A m
  after request_validation m = record_request_validation_failure A m
  after not_initialized m = record_engine_not_initialized A m
  after internal m = record_internal_error A m
  after (explanation ms) m = record_explanation A ms m
  after (redis_lookup ms failed) m = record_redis_lookup A ms failed m
  after (streaming status) m = record_streaming_message A status m
  after (model_load ms) m = record_model_load_time A ms m

  abbrev pub after_all : List Recording → MetricsRegistry → MetricsRegistry
  after_all [] m = m
  after_all (c ∷ cs) m = after_all cs (after c m)

  -- A score has a bucket.
  abbrev pub IsScored : Recording → Type 0
  IsScored (request endpoint code ms) = Unit {0}
  IsScored attempt = Unit {0}
  IsScored (success decision score ms amount) = (l : String) × (bucket_label A score ≡ ok l)
  IsScored engine_validation = Unit {0}
  IsScored request_validation = Unit {0}
  IsScored not_initialized = Unit {0}
  IsScored internal = Unit {0}
  IsScored (explanation ms) = Unit {0}
  IsScored (redis_lookup ms failed) = Unit {0}
  IsScored (streaming status) = Unit {0}
  IsScored (model_load ms) = Unit {0}

  success_steps :
      (decision label : String) (score ms : Float) (amount : Option Float) (m : MetricsRegistry)
      → bucket_label A score ≡ ok label
      → record_prediction_success A decision score ms amount m
        ≡ (ok tt, count_rest A label ms amount (count_score A decision score m))
  unfolding record_prediction_success
  success_steps decision label score ms amount m h = rw h

  request-IsConsistent :
      (endpoint : String) (code : ℕ) (ms : Float) (m : MetricsRegistry)
      → IsConsistent m
      → IsConsistent (record_request A endpoint code ms m)
  unfolding record_request
  request-IsConsistent endpoint code ms m c = record {
    endpoints = omega (arith, total-bump endpoint m.request_count_by_endpoint, c.endpoints);
    classes = omega (arith, total-bump (code / 100) m.request_count_by_status_class, c.classes);
    timed_requests = ap (λ n. n + 1) c.timed_requests;
    timed_endpoints = ap (bump endpoint) c.timed_endpoints;
    scored = c.scored;
    timed_predictions = c.timed_predictions;
    buckets = c.buckets;
    decided = c.decided;
    amounts = c.amounts;
    failures = c.failures;
    lookups = c.lookups;
  }

  success-IsConsistent :
      (decision label : String) (score ms : Float) (amount : Option Float) (m : MetricsRegistry)
      → IsConsistent m
      → IsConsistent (count_rest A label ms amount (count_score A decision score m))
  unfolding count_rest count_score count_amount
  success-IsConsistent decision label score ms none m c = record {
    endpoints = c.endpoints;
    classes = c.classes;
    timed_requests = c.timed_requests;
    timed_endpoints = c.timed_endpoints;
    scored = ap (λ n. n + 1) c.scored;
    timed_predictions = ap (λ n. n + 1) c.timed_predictions;
    buckets = omega (arith, total-bump label m.risk_score_bucket_counts, c.buckets);
    decided = omega (arith, total-bump_known decision m.decision_counts, c.decided);
    amounts = omega (arith, c.amounts);
    failures = c.failures;
    lookups = c.lookups;
  }
  success-IsConsistent decision label score ms (some x) m c = record {
    endpoints = c.endpoints;
    classes = c.classes;
    timed_requests = c.timed_requests;
    timed_endpoints = c.timed_endpoints;
    scored = ap (λ n. n + 1) c.scored;
    timed_predictions = ap (λ n. n + 1) c.timed_predictions;
    buckets = omega (arith, total-bump label m.risk_score_bucket_counts, c.buckets);
    decided = omega (arith, total-bump_known decision m.decision_counts, c.decided);
    amounts = omega (arith, c.amounts);
    failures = c.failures;
    lookups = c.lookups;
  }

  -- The fields that the invariant does not read may take any value.
  free-IsConsistent :
      (m : MetricsRegistry) (attempts rejected uninitialised internals explained p f d : ℕ)
      (explaining : Float) (load : Option Float)
      → IsConsistent m
      → IsConsistent (record m {
        prediction_attempts = attempts;
        request_validation_failures = rejected;
        engine_not_initialized_errors = uninitialised;
        internal_errors = internals;
        explanation_latency_sum_ms = explaining;
        explanation_latency_count = explained;
        streaming_messages_processed = p;
        streaming_messages_failed = f;
        streaming_messages_dead_lettered = d;
        model_load_time_ms = load;
      })
  free-IsConsistent m attempts rejected uninitialised internals explained p f d explaining load c =
      record {
        endpoints = c.endpoints;
        classes = c.classes;
        timed_requests = c.timed_requests;
        timed_endpoints = c.timed_endpoints;
        scored = c.scored;
        timed_predictions = c.timed_predictions;
        buckets = c.buckets;
        decided = c.decided;
        amounts = c.amounts;
        failures = c.failures;
        lookups = c.lookups;
      }

  failure-IsConsistent :
      (m : MetricsRegistry) → IsConsistent m → IsConsistent (record_engine_validation_failure A m)
  unfolding record_engine_validation_failure
  failure-IsConsistent m c = record {
    endpoints = c.endpoints;
    classes = c.classes;
    timed_requests = c.timed_requests;
    timed_endpoints = c.timed_endpoints;
    scored = c.scored;
    timed_predictions = c.timed_predictions;
    buckets = c.buckets;
    decided = c.decided;
    amounts = c.amounts;
    failures = ap (λ n. n + 1) c.failures;
    lookups = c.lookups;
  }

  lookup-IsConsistent :
      (ms : Float) (failed : Bool) (m : MetricsRegistry)
      → IsConsistent m
      → IsConsistent (record_redis_lookup A ms failed m)
  unfolding record_redis_lookup
  lookup-IsConsistent ms failed m c = record {
    endpoints = c.endpoints;
    classes = c.classes;
    timed_requests = c.timed_requests;
    timed_endpoints = c.timed_endpoints;
    scored = c.scored;
    timed_predictions = c.timed_predictions;
    buckets = c.buckets;
    decided = c.decided;
    amounts = c.amounts;
    failures = c.failures;
    lookups = ground (arith, c.lookups);
  }

  streaming-IsConsistent :
      (status : String) (m : MetricsRegistry)
      → IsConsistent m
      → IsConsistent (record_streaming_message A status m)
  unfolding record_streaming_message
  streaming-IsConsistent status m c =
      choose (status == "processed") (status == "failed") (status == "dead_lettered")
    where
      choose :
          (a b d : Bool)
          → IsConsistent (
              if a
              then record m { streaming_messages_processed = m.streaming_messages_processed + 1 }
              else if b
              then record m { streaming_messages_failed = m.streaming_messages_failed + 1 }
              else if d
              then record m {
                streaming_messages_dead_lettered = m.streaming_messages_dead_lettered + 1;
              }
              else m)
      choose true b d = free-IsConsistent m _ _ _ _ _ _ _ _ _ _ c
      choose false true d = free-IsConsistent m _ _ _ _ _ _ _ _ _ _ c
      choose false false true = free-IsConsistent m _ _ _ _ _ _ _ _ _ _ c
      choose false false false = c

  after-IsConsistent :
      (r : Recording) (m : MetricsRegistry) → IsScored r → IsConsistent m → IsConsistent (after r m)
  unfolding record_prediction_attempt record_request_validation_failure
      record_engine_not_initialized record_internal_error record_explanation record_model_load_time
  after-IsConsistent (request endpoint code ms) m s c = request-IsConsistent endpoint code ms m c
  after-IsConsistent attempt m s c = free-IsConsistent m _ _ _ _ _ _ _ _ _ _ c
  after-IsConsistent (success decision score ms amount) m (label, h) c =
      rw (ap (λ k. k.1) (success_steps decision label score ms amount m h))
        (success-IsConsistent decision label score ms amount m c)
  after-IsConsistent engine_validation m s c = failure-IsConsistent m c
  after-IsConsistent request_validation m s c = free-IsConsistent m _ _ _ _ _ _ _ _ _ _ c
  after-IsConsistent not_initialized m s c = free-IsConsistent m _ _ _ _ _ _ _ _ _ _ c
  after-IsConsistent internal m s c = free-IsConsistent m _ _ _ _ _ _ _ _ _ _ c
  after-IsConsistent (explanation ms) m s c = free-IsConsistent m _ _ _ _ _ _ _ _ _ _ c
  after-IsConsistent (redis_lookup ms failed) m s c = lookup-IsConsistent ms failed m c
  after-IsConsistent (streaming status) m s c = streaming-IsConsistent status m c
  after-IsConsistent (model_load ms) m s c = free-IsConsistent m _ _ _ _ _ _ _ _ _ _ c

  -- From a consistent registry, any sequence of recordings whose scores have buckets leads to a
  -- consistent one: the requests are counted once by endpoint and once by status class, the buckets of
  -- the scores add up to the successful predictions, no decision is counted without a success, and the
  -- prediction failures are the engine's validation failures and no others.
  pub after_all-IsConsistent :
      (cs : List Recording) (m : MetricsRegistry)
      → All IsScored cs
      → IsConsistent m
      → IsConsistent (after_all cs m)
  after_all-IsConsistent [] m s c = c
  after_all-IsConsistent (r ∷ cs) m (s, ss) c =
      after_all-IsConsistent cs (after r m) ss (after-IsConsistent r m s c)
