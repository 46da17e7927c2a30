-- ===== src/Streaming/Consumer/Run.antt =====
-- The poll loop `TransactionConsumer.run` (src/streaming/kafka_client.py) over the messages that each
-- pass of the Kafka consumer yields until its timeout. Another thread or the handler may set the stop
-- flag: it is read from the state.
use real_time_risk_fraud_eng.Prelude.{
  ℕ, ◌+◌, ◌≤◌, ◌<◌, ◌≡◌, refl, Bool, false, Option, none, some, List, [], ◌∷◌, if◌then◌else◌, leb,
  arith, Bool-cases, inl, inr,
}
use real_time_risk_fraud_eng.Streaming.Consumer.{ConsumerState, ConsumerParts, process_one}
use real_time_risk_fraud_eng.Streaming.Consumer.Accounting.{process_one-IsCounted}

-- How a pass over the messages ends: it reached the maximum, or the flag or the timeout ended it.
pub data Ending : Type 0 where
  returned passed : Ending

-- max_messages is not None and n >= max_messages
unfoldable pub reached : Option ℕ → ℕ → Bool
reached none n = false
reached (some most) n = leb most n

module _ {T R E H D : Type 0} (parts : ConsumerParts T R E H D)
    (stopped : ConsumerState H D → Bool) where
  -- `for message in consumer: …`, with the number of messages so far
  unfoldable pub run_pass :
      Option ℕ → List T → ℕ → ConsumerState H D → Ending × ℕ × ConsumerState H D
  unfolding reached
  run_pass most [] n c = (passed, n, c)
  run_pass most (t ∷ ts) n c =
      let c' = process_one parts t c in
      let rest = run_pass most ts (n + 1) c' in
      if stopped c
      then (passed, n, c)
      else if reached most (n + 1)
      then (returned, n + 1, c')
      else rest

  -- After a pass: a bounded run ends with it.
  unfoldable pub after_pass :
      Option ℕ
      → Ending × ℕ × ConsumerState H D
      → (ℕ → ConsumerState H D → Option (ConsumerState H D))
      → Option (ConsumerState H D)
  after_pass most (returned, n, c) next = some c
  after_pass none (passed, n, c) next = next n c
  after_pass (some most) (passed, n, c) next = some c

  -- `run` from its loop on; `none` while it still waits when the passes are used up
  unfoldable pub run : Option ℕ → List (List T) → ℕ → ConsumerState H D → Option (ConsumerState H D)
  unfolding run_pass after_pass
  run most [] n c = if stopped c then some c else none
  run most (ts ∷ passes) n c =
      if stopped c
      then some c
      else after_pass most (run_pass most ts n c) (λ n' c'. run most passes n' c')

  abbrev handled : ConsumerState H D → ℕ
  handled c = c.processed + c.failed

  pass_counts :
      (most : ℕ) (ts : List T) (n : ℕ) (c : ConsumerState H D)
      → n < most
      → handled (run_pass (some most) ts n c).2 + n ≤ handled c + most
  unfolding run_pass reached
  pass_counts most [] n c h = omega arith
  pass_counts most (t ∷ ts) n c h =
      let counted = (process_one-IsCounted parts t c).once in
      elim (Bool-cases (leb most (n + 1))) [
        | inl full ↦ ground arith
        | inr more ↦
            let rest = pass_counts most ts (n + 1) (process_one parts t c) (ground arith) in
            ground arith
      ]

  ends :
      (most : ℕ) (r : Ending × ℕ × ConsumerState H D)
      (next : ℕ → ConsumerState H D → Option (ConsumerState H D))
      → after_pass (some most) r next ≡ some r.2
  unfolding after_pass
  ends most (returned, n, c) next = refl
  ends most (passed, n, c) next = refl

  -- With a maximum that is positive, `run` ends with the first pass, and has processed or given up at
  -- most so many messages.
  run_bounded :
      (most : ℕ) (ts : List T) (passes : List (List T)) (c : ConsumerState H D)
      → 0 < most
      → (c' : ConsumerState H D) × (run (some most) (ts ∷ passes) 0 c ≡ some c')
        × (c'.processed + c'.failed ≤ c.processed + c.failed + most)
  unfolding run
  run_bounded most ts passes c h = elim (Bool-cases (stopped c)) [
    | inl halt ↦ (c, rw halt, omega arith)
    | inr live ↦ (
      (run_pass (some most) ts 0 c).2,
      rw live (ends most (run_pass (some most) ts 0 c) _),
      omega (arith, pass_counts most ts 0 c h),
    )
  ]
