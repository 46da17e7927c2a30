-- ===== src/State/Tests.antt =====
-- A monotone arithmetic, a small history, and a Redis server that is a dict.
use real_time_risk_fraud_eng.Prelude.{ℕ, ◌≡◌, refl, none, some, List, ◌∷◌, [], String, true}
use real_time_risk_fraud_eng.Prelude.Int.{pos, ◌-ℤ◌}
use real_time_risk_fraud_eng.Prelude.Keys.{Dict, lookup, insert, lookup-insert, str_key, int_key}
use real_time_risk_fraud_eng.Result.{ok}
use real_time_risk_fraud_eng.Float.{Float, exact, zero_float, le, scale}
use real_time_risk_fraud_eng.Float.Exact.{
  exact_arithmetic, exact_sub_mono, exact_sub_anti, exact_sub_zero, exact_sub,
}
use real_time_risk_fraud_eng.State.Entity.{EntityState, fresh, cutoff, day_seconds}
use real_time_risk_fraud_eng.State.Entity.Velocity.{IsMonotone}
use real_time_risk_fraud_eng.State.Backend.{
  RedisClient, Encoding, StateDict, in_memory, redis, to_dict,
}
use real_time_risk_fraud_eng.State.Backend.Contract.{
  IsStore, IsReliable, IsFaithful, redis_view, in_memory-IsStore, redis-IsStore,
}
use real_time_risk_fraud_eng.State.Manager.{serialize, load_serialized, dicts}
use real_time_risk_fraud_eng.State.Manager.Snapshot.{load_serialized-serialize}
use real_time_risk_fraud_eng.State.Manager.Bulk.{Row, Statistics}
use real_time_risk_fraud_eng.State.Manager.Trace.{
  Event, read, write, Chronological, trace, spec_trace,
}
use real_time_risk_fraud_eng.State.Manager.Simulation.{trace-eq-spec_trace}

pub exact-IsMonotone : IsMonotone exact_arithmetic
exact-IsMonotone = record {
  later = exact_sub_mono;
  longer = exact_sub_anti;
  zero_seconds = exact_sub_zero;
}

abbrev seconds : ℕ → Float
seconds n = exact (pos n)

-- Two cards, one of them twice.
abbrev events : List (Event ℕ)
events =
    read 1 (seconds 100) (seconds 5)
    ∷ write 1 (seconds 100) (seconds 5)
    ∷ read 2 (seconds 200) (seconds 7)
    ∷ write 2 (seconds 200) (seconds 7)
    ∷ read 1 (seconds 90000) (seconds 9)
    ∷ write 1 (seconds 90000) (seconds 9)
    ∷ []

events_order : Chronological zero_float events
unfolding le zero_float exact scale
events_order = (refl, (refl, (refl, (refl, (refl, (refl, tt))))))

nothing : (j : ℕ) → lookup {V = EntityState} j [] ≡ none
unfolding lookup
nothing j = refl

trace-eq-spec_trace_example :
    trace exact_arithmetic in_memory events [] ≡ spec_trace exact_arithmetic events (λ _. none)
trace-eq-spec_trace_example =
    trace-eq-spec_trace exact_arithmetic in_memory (λ d k. lookup k d) in_memory-IsStore
      exact-IsMonotone events zero_float [] events_order (λ j. nothing j)

-- A server over a dict: an expiry is not kept, and a pattern of `keys` is not read.
abbrev dict_client : RedisClient (Dict String StateDict) StateDict
dict_client = record {
  get = λ key d. (ok (lookup key d), d);
  set = λ key p ttl d. (ok tt, insert key p d);
  keys = λ pattern d. (ok [], d);
  delete = λ names d. (ok tt, d);
  ping = λ d. (ok true, d);
}

dict_client-IsReliable : IsReliable dict_client
dict_client-IsReliable = record {
  stored = λ d key. lookup key d;
  get-stored = λ key d. refl;
  set-stored = λ key p d. (insert key p d, refl, λ j. lookup-insert key j p d);
}

abbrev plain_encoding : Encoding String StateDict
plain_encoding = record { dumps = λ d. d; loads = λ d. d; show_key = λ k. k }

plain_encoding-IsFaithful : IsFaithful plain_encoding
plain_encoding-IsFaithful = record { loads-dumps = λ d. refl; show_key_injective = λ k j h. h }

redis-IsStore_example : IsStore (redis exact_arithmetic dict_client plain_encoding "bhv:" none) (
    redis_view exact_arithmetic dict_client plain_encoding "bhv:" dict_client-IsReliable
      plain_encoding-IsFaithful)
redis-IsStore_example =
    redis-IsStore exact_arithmetic dict_client plain_encoding "bhv:" dict_client-IsReliable
      plain_encoding-IsFaithful

abbrev times : List Float
times = seconds 100 ∷ seconds 90000 ∷ []

early : le zero_float (cutoff exact_arithmetic day_seconds (seconds 90001)) ≡ true
unfolding le zero_float exact cutoff exact_sub scale ◌-ℤ◌
early = refl

abbrev one_entity : Dict String EntityState
one_entity = ("c1", fresh) ∷ []

saved_one :
    (serialize exact_arithmetic in_memory (λ (k : String). k) one_entity).0
    ≡ ok (("c1", to_dict exact_arithmetic fresh) ∷ [])
unfolding serialize in_memory dicts
saved_one = refl

load_serialized-serialize_example :
    load_serialized exact_arithmetic in_memory
      (λ name. some name)
      (("c1", to_dict exact_arithmetic fresh) ∷ [])
      []
    ≡ (ok tt, one_entity)
load_serialized-serialize_example =
    load_serialized-serialize exact_arithmetic (λ (k : String). k) (λ name. some name) (λ k. refl)
      one_entity [] (("c1", to_dict exact_arithmetic fresh) ∷ []) (refl, tt) saved_one

-- Statistics of a column with one entry.
abbrev first_of : List Float → Float
first_of [] = zero_float
first_of (x ∷ xs) = x

abbrev single : Statistics String
single = record {
  by_time = λ rows. rows;
  column_max = first_of;
  mean = first_of;
  deviations = λ xs. zero_float;
  least = first_of;
  greatest = first_of;
  ascending = λ xs. xs;
  square = λ x. some x;
}

abbrev past : Row String
past = record { entity = "c1"; time = seconds 100; amount = seconds 5 }

abbrev busy : Dict String EntityState
busy = ("c1", record fresh { tally = 1; mean_amt = seconds 7; last_time = some (seconds 50) }) ∷ []
