-- ===== src/Streaming/Broker.antt =====
-- The in-memory broker and its producer and consumer (src/streaming/fake_broker.py).
pub mod Delivery
use real_time_risk_fraud_eng.Prelude.{
  ℕ, zero, suc, ◌+◌, Option, none, some, List, [], ◌∷◌, ◌++◌, length,
}
use real_time_risk_fraud_eng.Streaming.Consumer.{ConsumerState, ConsumerParts, process_one}

-- `InMemoryBroker`: a FIFO queue.
pub record Broker (T : Type 0) : Type 0 where
  pub queue : List T

module _ {T : Type 0} where
  unfoldable pub send : T → Broker T → Broker T
  send t b = record b { queue = b.queue ++ t ∷ [] }

  next : List T → Option T × List T
  next [] = (none, [])
  next (t ∷ ts) = (some t, ts)

  unfoldable pub poll : Broker T → Option T × Broker T
  unfolding next
  poll b = let (m, rest) = next b.queue in (m, record b { queue = rest })

  unfoldable pub size : Broker T → ℕ
  size b = length b.queue

-- `FakeTransactionProducer`, with its broker
pub record Producer (T : Type 0) : Type 0 where
  pub broker : Broker T
  pub sent_count : ℕ

unfoldable pub produce : {T : Type 0} → T → Producer T → Producer T
produce t p = record p { broker = send t p.broker; sent_count = p.sent_count + 1 }

module _ {T R E H D : Type 0} (parts : ConsumerParts T R E H D) where
  -- `run_until_empty`, with fuel for its rounds: `none` if it runs out. The handler has no hand on
  -- the broker.
  unfoldable pub run_until_empty :
      ℕ → Broker T → ConsumerState H D → Option (Broker T × ConsumerState H D)
  run_until_empty zero b c = none
  run_until_empty (suc fuel) b c =
      let (m, b') = poll b in
      elim m [ none ↦ some (b', c) | some t ↦ run_until_empty fuel b' (process_one parts t c) ]
