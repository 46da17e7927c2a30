-- ===== src/Streaming/Consumer.antt =====
-- `TransactionConsumer` (src/streaming/kafka_client.py): `_process_one` with its retries.
pub mod Accounting
pub mod Run
use real_time_risk_fraud_eng.Prelude.{
  ℕ, zero, suc, ◌+◌, Bool, true, false, Option, none, some, List, [], ◌∷◌, if◌then◌else◌,
}
use real_time_risk_fraud_eng.Result.{Result, ok, err}
use real_time_risk_fraud_eng.Exec.{Exec}

-- `H` is the handler's state and `D` the dead-letter producer's.
pub record ConsumerState (H D : Type 0) : Type 0 where
  pub handler : H
  pub dlq : D
  pub processed : ℕ
  pub failed : ℕ
  pub dead_lettered : ℕ

-- The handler, and `dlq_producer.send` on the original transaction and the last error, which may
-- raise `StreamingUnavailableError` and nothing else; `none` without a producer.
pub record ConsumerParts (T R E H D : Type 0) : Type 0 where
  pub handler : T → Exec E H R
  pub send : Option (T → Option E → Exec (Unit {0}) D (Unit {0}))
  pub max_retries : ℕ

module _ {T R E H D : Type 0} (parts : ConsumerParts T R E H D) where
  open parts use {handler, send, max_retries}

  -- After a send to the dead-letter queue.
  count_sent : Result (Unit {0}) (Unit {0}) × D → ConsumerState H D → ConsumerState H D
  count_sent (ok _, d) c = record c { dlq = d; dead_lettered = c.dead_lettered + 1 }
  count_sent (err _, d) c = record c { dlq = d }

  -- if self.dlq_producer is not None: …
  dead_letter :
      Option (T → Option E → Exec (Unit {0}) D (Unit {0}))
      → T
      → Option E
      → ConsumerState H D
      → ConsumerState H D
  unfolding count_sent
  dead_letter none t last c = c
  dead_letter (some publish) t last c = count_sent (publish t last c.dlq) c

  -- The retries are exhausted.
  unfoldable pub give_up : T → Option E → ConsumerState H D → ConsumerState H D
  unfolding dead_letter
  give_up t last c = dead_letter send t last (record c { failed = c.failed + 1 })

  -- The loop over the attempts that are left, with the last error.
  unfoldable pub attempts : ℕ → T → Option E → ConsumerState H D → ConsumerState H D
  attempts zero t last c = give_up t last c
  attempts (suc n) t last c =
      let (r, h) = handler t c.handler in
      elim r [
        | ok _ ↦ record c { handler = h; processed = c.processed + 1 }
        | err x ↦ attempts n t (some x) (record c { handler = h })
      ]

  -- `_process_one`: range(1, max_retries + 2) has max_retries + 1 attempts
  unfoldable pub process_one : T → ConsumerState H D → ConsumerState H D
  process_one t c = attempts (suc max_retries) t none c
