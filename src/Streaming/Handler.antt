-- ===== src/Streaming/Handler.antt =====
-- `FraudProcessingHandler` (src/streaming/fraud_processing_consumer.py). The engine's
-- `process_transaction` and the decisions producer are parameters, over their own states.
pub mod Cache
pub mod Duplicates
use real_time_risk_fraud_eng.Prelude.{
  ℕ, zero, suc, ◌+◌, Bool, true, false, Option, none, some, List, [], ◌∷◌, ◌++◌, length, ltb,
  is_some, if◌then◌else◌,
}
use real_time_risk_fraud_eng.Prelude.Keys.{Hashable, Dict, lookup, insert, erase}
use real_time_risk_fraud_eng.Result.{Result, ok, err}
use real_time_risk_fraud_eng.Exec.{Exec}

-- `N` is the type of transaction ids as dict keys, `R` of results, `S` of the engine's state and `P`
-- of the producer's.
pub record HandlerState (N R S P : Type 0) : Type 0 where
  pub engine : S
  pub producer : P
  pub processed : ℕ
  pub rejected : ℕ
  pub duplicates_skipped : ℕ
  pub seen : Dict N R
  pub seen_order : List N

-- `engine` may raise; `is_validation` tells the `TransactionValidationError`s. `send` is
-- `decision_producer.send` on the message made of a result, `none` without a producer; what it raises
-- is caught. `id_of` is `transaction.get("TransactionID")`, `none` for None.
pub record HandlerParts (T N R S P E : Type 0) : Type 0 where
  pub id_of : T → Option N
  pub engine : T → Exec E S R
  pub is_validation : E → Bool
  pub send : Option (R → Exec (Unit {0}) P (Unit {0}))
  pub cache_size : ℕ

module _ {T N R S P E : Type 0} ⦃e : Hashable N⦄ (parts : HandlerParts T N R S P E) where
  open parts use {id_of, engine, is_validation, send, cache_size}

  -- `self._seen_order.pop(0)` and the removal of the oldest id, when the list is too long
  evict : List N → Dict N R → List N × Dict N R
  evict [] d = ([], d)
  evict (oldest ∷ rest) d =
      if ltb cache_size (length (oldest ∷ rest)) then (rest, erase oldest d) else (oldest ∷ rest, d)

  -- `_remember`
  unfoldable pub remember : N → R → HandlerState N R S P → HandlerState N R S P
  unfolding evict
  remember i r h =
      let (order, d) = evict (h.seen_order ++ i ∷ []) (insert i r h.seen) in
      record h { seen = d; seen_order = order }

  remember_id : Option N → R → HandlerState N R S P → HandlerState N R S P
  remember_id none r h = h
  remember_id (some i) r h = remember i r h

  sent : Option (R → Exec (Unit {0}) P (Unit {0})) → R → P → P
  sent none r p = p
  sent (some publish) r p = (publish r p).1

  -- The cached result of an id that was seen.
  cached : Option N → Dict N R → Option R
  cached none d = none
  cached (some i) d = lookup i d

  -- After the call of the engine.
  unfoldable pub settle :
      T → Result E R × S → HandlerState N R S P → Result E R × HandlerState N R S P
  unfolding remember_id sent
  settle t (ok r, s) h =
      let h' = remember_id (id_of t) r (record h { engine = s; processed = h.processed + 1 }) in
      (ok r, record h' { producer = sent send r h'.producer })
  settle t (err x, s) h = (
    err x,
    record h { engine = s; rejected = if is_validation x then h.rejected + 1 else h.rejected },
  )

  answer : T → Option R → HandlerState N R S P → Result E R × HandlerState N R S P
  unfolding settle
  answer t (some r) h = (ok r, record h { duplicates_skipped = h.duplicates_skipped + 1 })
  answer t none h = settle t (engine t h.engine) h

  -- `__call__`
  unfoldable pub handle : T → Exec E (HandlerState N R S P) R
  unfolding cached answer
  handle t h = answer t (cached (id_of t) h.seen) h
