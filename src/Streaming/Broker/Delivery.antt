-- ===== src/Streaming/Broker/Delivery.antt =====
-- A drained broker: every message has been processed or has failed, in the order of sending.
use real_time_risk_fraud_eng.Prelude.{
  ℕ, zero, suc, ◌<◌, ◌≡◌, refl, some, List, [], ◌∷◌, length, arith,
}
use real_time_risk_fraud_eng.Streaming.Consumer.{ConsumerState, ConsumerParts, process_one}
use real_time_risk_fraud_eng.Streaming.Broker.{poll, run_until_empty}

module _ {T R E H D : Type 0} (parts : ConsumerParts T R E H D) where
  -- The specification: the messages one after another.
  unfoldable pub process_all : List T → ConsumerState H D → ConsumerState H D
  process_all [] c = c
  process_all (t ∷ ts) c = process_all ts (process_one parts t c)

  -- With more rounds than messages the loop ends, the queue is empty, and the messages have been
  -- processed in the order in which they were sent.
  pub run_until_empty-eq-process_all :
      (fuel : ℕ) (ts : List T) (c : ConsumerState H D)
      → length ts < fuel
      → run_until_empty parts fuel (record { queue = ts }) c
        ≡ some (record { queue = [] }, process_all ts c)
  unfolding run_until_empty process_all poll
  run_until_empty-eq-process_all zero ts c h = absurd (omega arith)
  run_until_empty-eq-process_all (suc fuel) [] c h = refl
  run_until_empty-eq-process_all (suc fuel) (t ∷ ts) c h =
      run_until_empty-eq-process_all fuel ts (process_one parts t c) (omega arith)
