-- ===== src/Monitoring/Metrics.antt =====
-- `MetricsRegistry` (src/monitoring/metrics.py): counters that are recorded after a result is final.
-- The lock makes each method one step. The start time is left out.
pub mod Totals
pub mod Consistency
pub mod Snapshot
pub mod Tests
use Prim.Native.Nat.{◌/◌}
use Prim.Native.String.{◌++◌ as ◌+++◌}
use real_time_risk_fraud_eng.Prelude.{
  ℕ, zero, suc, ◌+◌, ◌-◌, Bool, true, false, String, Option, none, some, List, [], ◌∷◌,
  if◌then◌else◌, is_some, leb, eqb,
}
use real_time_risk_fraud_eng.Prelude.Int.{ℤ, pos, negsuc}
use real_time_risk_fraud_eng.Prelude.Keys.{Hashable, Dict, ◌==◌, lookup, insert, str_key, int_key}
use real_time_risk_fraud_eng.Result
use real_time_risk_fraud_eng.Result.{Result, ok, err}
use real_time_risk_fraud_eng.Exec.{Exec, pure, lift, modify, ◌>>=◌, ◌>>◌}
use real_time_risk_fraud_eng.Float.{
  Float, nan, ninf, pinf, fin, scale, exact, zero_float, min, max, Arithmetic,
}
use real_time_risk_fraud_eng.State.Entity.{extreme, float_of}

-- What `int(score * 10)` and the two list lookups may raise.
pub data MetricsError : Type 0 where
  value_error overflow_error index_error : MetricsError

-- A status class, such as "2xx", is kept as its first digits.
pub record MetricsRegistry : Type 0 where
  pub request_count_total : ℕ
  pub request_count_by_endpoint : Dict String ℕ
  pub request_count_by_status_class : Dict ℕ ℕ
  pub request_latency_sum_ms : Float
  pub request_latency_count : ℕ
  pub request_latency_by_endpoint_sum_ms : Dict String Float
  pub request_latency_by_endpoint_count : Dict String ℕ
  pub prediction_attempts : ℕ
  pub prediction_successes : ℕ
  pub prediction_failures : ℕ
  pub prediction_latency_sum_ms : Float
  pub prediction_latency_count : ℕ
  pub decision_counts : Dict String ℕ
  pub risk_score_count : ℕ
  pub risk_score_sum : Float
  pub risk_score_min : Option Float
  pub risk_score_max : Option Float
  pub risk_score_bucket_counts : Dict String ℕ
  pub request_validation_failures : ℕ
  pub engine_validation_failures : ℕ
  pub engine_not_initialized_errors : ℕ
  pub internal_errors : ℕ
  pub transaction_amount_count : ℕ
  pub transaction_amount_sum : Float
  pub transaction_amount_min : Option Float
  pub transaction_amount_max : Option Float
  pub explanation_latency_sum_ms : Float
  pub explanation_latency_count : ℕ
  pub redis_lookup_count : ℕ
  pub redis_lookup_failures : ℕ
  pub redis_lookup_latency_sum_ms : Float
  pub streaming_messages_processed : ℕ
  pub streaming_messages_failed : ℕ
  pub streaming_messages_dead_lettered : ℕ
  pub model_load_time_ms : Option Float

-- `MetricsRegistry()`
abbrev pub empty : MetricsRegistry
empty = record {
  request_count_total = 0;
  request_count_by_endpoint = [];
  request_count_by_status_class = [];
  request_latency_sum_ms = zero_float;
  request_latency_count = 0;
  request_latency_by_endpoint_sum_ms = [];
  request_latency_by_endpoint_count = [];
  prediction_attempts = 0;
  prediction_successes = 0;
  prediction_failures = 0;
  prediction_latency_sum_ms = zero_float;
  prediction_latency_count = 0;
  decision_counts = ("APPROVE", 0) ∷ ("REVIEW", 0) ∷ ("BLOCK", 0) ∷ [];
  risk_score_count = 0;
  risk_score_sum = zero_float;
  risk_score_min = none;
  risk_score_max = none;
  risk_score_bucket_counts = [];
  request_validation_failures = 0;
  engine_validation_failures = 0;
  engine_not_initialized_errors = 0;
  internal_errors = 0;
  transaction_amount_count = 0;
  transaction_amount_sum = zero_float;
  transaction_amount_min = none;
  transaction_amount_max = none;
  explanation_latency_sum_ms = zero_float;
  explanation_latency_count = 0;
  redis_lookup_count = 0;
  redis_lookup_failures = 0;
  redis_lookup_latency_sum_ms = zero_float;
  streaming_messages_processed = 0;
  streaming_messages_failed = 0;
  streaming_messages_dead_lettered = 0;
  model_load_time_ms = none;
}

-- The texts of `RISK_SCORE_BUCKET_EDGES`
abbrev edges : List String
edges = "0.0" ∷ "0.1" ∷ "0.2" ∷ "0.3" ∷ "0.4" ∷ "0.5" ∷ "0.6" ∷ "0.7" ∷ "0.8" ∷ "0.9" ∷ "1.0" ∷ []

-- xs[n]
nth : List String → ℕ → Result MetricsError String
nth [] n = err index_error
nth (x ∷ xs) zero = ok x
nth (x ∷ xs) (suc n) = nth xs n

-- xs[i], where a negative index counts from the end
edge_at : ℤ → Result MetricsError String
unfolding nth
edge_at (pos n) = nth edges n
edge_at (negsuc n) = if leb n 10 then nth edges (10 - n) else err index_error

-- min(i, 9)
capped : ℤ → ℤ
capped (pos n) = if leb n 9 then pos n else pos 9
capped (negsuc n) = negsuc n

next_index : ℤ → ℤ
next_index (pos n) = pos (suc n)
next_index (negsuc zero) = pos 0
next_index (negsuc (suc n)) = negsuc n

-- int(x), which drops the fraction
truncated : Float → Result MetricsError ℤ
truncated nan = err value_error
truncated ninf = err overflow_error
truncated pinf = err overflow_error
truncated (fin (pos n)) = ok (pos (n / scale))
truncated (fin (negsuc n)) = ok (negated_whole (suc n / scale))
  where
    negated_whole : ℕ → ℤ
    negated_whole zero = pos 0
    negated_whole (suc k) = negsuc k

label_of : ℤ → Result MetricsError String
unfolding edge_at next_index
label_of i =
    Result.◌>>=◌ (edge_at i)
      λ lo. Result.◌>>=◌ (edge_at (next_index i)) λ hi. ok (lo +++ "-" +++ hi)

-- d[k] += 1 on a defaultdict(int)
unfoldable pub plus_one : Option ℕ → ℕ
plus_one none = 1
plus_one (some n) = n + 1

unfoldable pub bump : {K : Type 0} ⦃e : Hashable K⦄ → K → Dict K ℕ → Dict K ℕ
unfolding plus_one
bump k d = insert k (plus_one (lookup k d)) d

-- `if decision in self.decision_counts: …`
unfoldable pub bump_known : String → Dict String ℕ → Dict String ℕ
bump_known k d = if is_some (lookup k d) then bump k d else d

module _ (A : Arithmetic) where
  open A use {add, mul, div}

  -- `_bucket_label`
  unfoldable pub bucket_label : Float → Result MetricsError String
  unfolding truncated label_of capped
  bucket_label score = Result.◌>>=◌ (truncated (mul score (float_of 10))) λ i. label_of (capped i)

  -- d[k] += x on a defaultdict(float)
  plus : Float → Option Float → Float
  plus x none = add zero_float x
  plus x (some y) = add y x

  add_at : String → Float → Dict String Float → Dict String Float
  unfolding plus
  add_at k x d = insert k (plus x (lookup k d)) d

  -- `record_request`
  unfoldable pub record_request : String → ℕ → Float → MetricsRegistry → MetricsRegistry
  unfolding add_at
  record_request endpoint status_code duration_ms m = record m {
    request_count_total = m.request_count_total + 1;
    request_count_by_endpoint = bump endpoint m.request_count_by_endpoint;
    request_count_by_status_class = bump (status_code / 100) m.request_count_by_status_class;
    request_latency_sum_ms = add m.request_latency_sum_ms duration_ms;
    request_latency_count = m.request_latency_count + 1;
    request_latency_by_endpoint_sum_ms =
        add_at endpoint duration_ms m.request_latency_by_endpoint_sum_ms;
    request_latency_by_endpoint_count = bump endpoint m.request_latency_by_endpoint_count;
  }

  -- `record_prediction_attempt`
  unfoldable pub record_prediction_attempt : MetricsRegistry → MetricsRegistry
  record_prediction_attempt m = record m { prediction_attempts = m.prediction_attempts + 1 }

  -- The decision and the score, before the bucket is looked up.
  unfoldable pub count_score : String → Float → MetricsRegistry → MetricsRegistry
  count_score decision score m = record m {
    prediction_successes = m.prediction_successes + 1;
    decision_counts = bump_known decision m.decision_counts;
    risk_score_count = m.risk_score_count + 1;
    risk_score_sum = add m.risk_score_sum score;
    risk_score_min = some (extreme min m.risk_score_min score);
    risk_score_max = some (extreme max m.risk_score_max score);
  }

  unfoldable pub count_amount : Option Float → MetricsRegistry → MetricsRegistry
  count_amount none m = m
  count_amount (some x) m = record m {
    transaction_amount_count = m.transaction_amount_count + 1;
    transaction_amount_sum = add m.transaction_amount_sum x;
    transaction_amount_min = some (extreme min m.transaction_amount_min x);
    transaction_amount_max = some (extreme max m.transaction_amount_max x);
  }

  -- The bucket, the latency and the amount.
  unfoldable pub count_rest : String → Float → Option Float → MetricsRegistry → MetricsRegistry
  count_rest label duration_ms amount m = count_amount amount (record m {
    risk_score_bucket_counts = bump label m.risk_score_bucket_counts;
    prediction_latency_sum_ms = add m.prediction_latency_sum_ms duration_ms;
    prediction_latency_count = m.prediction_latency_count + 1;
  })

  -- `record_prediction_success`; a score without a bucket raises when its first half is recorded
  unfoldable pub record_prediction_success :
      String → Float → Float → Option Float → Exec MetricsError MetricsRegistry (Unit {0})
  record_prediction_success decision score duration_ms amount = do
    modify (count_score decision score)
    label ← lift (bucket_label score)
    modify (count_rest label duration_ms amount)

  -- `record_engine_validation_failure`
  unfoldable pub record_engine_validation_failure : MetricsRegistry → MetricsRegistry
  record_engine_validation_failure m = record m {
    prediction_failures = m.prediction_failures + 1;
    engine_validation_failures = m.engine_validation_failures + 1;
  }

  -- `record_request_validation_failure`
  unfoldable pub record_request_validation_failure : MetricsRegistry → MetricsRegistry
  record_request_validation_failure m = record m {
    request_validation_failures = m.request_validation_failures + 1;
  }

  -- `record_engine_not_initialized`
  unfoldable pub record_engine_not_initialized : MetricsRegistry → MetricsRegistry
  record_engine_not_initialized m = record m {
    engine_not_initialized_errors = m.engine_not_initialized_errors + 1;
  }

  -- `record_internal_error`
  unfoldable pub record_internal_error : MetricsRegistry → MetricsRegistry
  record_internal_error m = record m { internal_errors = m.internal_errors + 1 }

  -- `record_explanation`
  unfoldable pub record_explanation : Float → MetricsRegistry → MetricsRegistry
  record_explanation duration_ms m = record m {
    explanation_latency_sum_ms = add m.explanation_latency_sum_ms duration_ms;
    explanation_latency_count = m.explanation_latency_count + 1;
  }

  -- `record_redis_lookup`
  unfoldable pub record_redis_lookup : Float → Bool → MetricsRegistry → MetricsRegistry
  record_redis_lookup duration_ms failed m = record m {
    redis_lookup_count = m.redis_lookup_count + 1;
    redis_lookup_latency_sum_ms = add m.redis_lookup_latency_sum_ms duration_ms;
    redis_lookup_failures = if failed then m.redis_lookup_failures + 1 else m.redis_lookup_failures;
  }

  -- `record_streaming_message`
  unfoldable pub record_streaming_message : String → MetricsRegistry → MetricsRegistry
  record_streaming_message status m =
      if status == "processed"
      then record m { streaming_messages_processed = m.streaming_messages_processed + 1 }
      else if status == "failed"
      then record m { streaming_messages_failed = m.streaming_messages_failed + 1 }
      else if status == "dead_lettered"
      then record m { streaming_messages_dead_lettered = m.streaming_messages_dead_lettered + 1 }
      else m

  -- `record_model_load_time`
  unfoldable pub record_model_load_time : Float → MetricsRegistry → MetricsRegistry
  record_model_load_time duration_ms m = record m { model_load_time_ms = some duration_ms }
