-- ===== src/Streaming/Consumer/Accounting.antt =====
-- Each message is counted once, the retries are bounded, and a failure reaches the dead letters.
use real_time_risk_fraud_eng.Prelude.{
  ℕ, zero, suc, ◌+◌, ◌≤◌, ◌≡◌, Option, none, some, ◌⊎◌, inl, inr, arith,
}
use real_time_risk_fraud_eng.Result.{Result, ok, err, Result-cases}
use real_time_risk_fraud_eng.Streaming.Consumer.{
  ConsumerState, ConsumerParts, give_up, attempts, process_one,
}

-- The counters of one message: processed or failed, and dead-lettered only if failed.
pub record IsCounted {H D : Type 0} (c c' : ConsumerState H D) : Type 0 where
  pub once : c'.processed + c'.failed ≡ c.processed + c.failed + 1
  pub processed_grows : c.processed ≤ c'.processed
  pub failed_grows : c.failed ≤ c'.failed
  pub dead_grows : c.dead_lettered ≤ c'.dead_lettered
  pub dead_failed : c'.dead_lettered + c.failed ≤ c.dead_lettered + c'.failed

module _ {T R E H D : Type 0} (parts : ConsumerParts T R E H D) where
  abbrev handled : T → ConsumerState H D → ConsumerState H D
  handled t c = record c { handler = (parts.handler t c.handler).1 }

  -- One attempt.
  attempts_ok :
      (n : ℕ) (t : T) (last : Option E) (c : ConsumerState H D) (r : R)
      → (parts.handler t c.handler).0 ≡ ok r
      → attempts parts (suc n) t last c
        ≡ record c { handler = (parts.handler t c.handler).1; processed = c.processed + 1 }
  unfolding attempts
  attempts_ok n t last c r h = rw (h, attempts)

  attempts_err :
      (n : ℕ) (t : T) (last : Option E) (c : ConsumerState H D) (x : E)
      → (parts.handler t c.handler).0 ≡ err x
      → attempts parts (suc n) t last c ≡ attempts parts n t (some x) (handled t c)
  unfolding attempts
  attempts_err n t last c x h = rw (h, attempts)

  give_up-IsCounted :
      (t : T) (last : Option E) (c : ConsumerState H D) → IsCounted c (give_up parts t last c)
  unfolding give_up
  give_up-IsCounted t last c = ground arith

  give_up_failed :
      (t : T) (last : Option E) (c : ConsumerState H D)
      → (give_up parts t last c).failed ≡ c.failed + 1
  unfolding give_up
  give_up_failed t last c = ground arith

  attempts-IsCounted :
      (n : ℕ) (t : T) (last : Option E) (c : ConsumerState H D)
      → IsCounted c (attempts parts n t last c)
  attempts-IsCounted zero t last c = unfold attempts in give_up-IsCounted t last c
  attempts-IsCounted (suc n) t last c = elim (Result-cases (parts.handler t c.handler).0) [
    | inl (r, h) ↦ rw (attempts_ok n t last c r h) (ground arith)
    | inr (x, h) ↦
        let rest = attempts-IsCounted n t (some x) (handled t c) in
        rw (attempts_err n t last c x h) (ground (arith, rest))
  ]

  -- Whatever the handler does, a message is counted exactly once, as processed or as failed, no
  -- counter falls, and the dead letters grow no more than the failures.
  pub process_one-IsCounted : (t : T) (c : ConsumerState H D) → IsCounted c (process_one parts t c)
  unfolding process_one
  process_one-IsCounted t c = attempts-IsCounted (suc parts.max_retries) t none c

  -- A handler whose state counts its calls.
  abbrev pub IsMetered : (H → ℕ) → Type 0
  IsMetered calls = (t : T) (h : H) → calls (parts.handler t h).1 ≡ calls h + 1

  module _ (calls : H → ℕ) (metered : IsMetered calls) where
    give_up-handler :
        (t : T) (last : Option E) (c : ConsumerState H D)
        → (give_up parts t last c).handler ≡ c.handler
    unfolding give_up
    give_up-handler t last c = ground arith

    -- What the attempts call: all of them if the message fails, at least one if it is processed.
    attempts_calls :
        (n : ℕ) (t : T) (last : Option E) (c : ConsumerState H D)
        → let c' = attempts parts n t last c in
          (calls c'.handler ≤ calls c.handler + n)
          × ((c'.failed ≡ c.failed + 1) → calls c'.handler ≡ calls c.handler + n)
    attempts_calls zero t last c = unfold attempts in rw (give_up-handler t last c) (omega arith)
    attempts_calls (suc n) t last c = elim (Result-cases (parts.handler t c.handler).0) [
      | inl (r, h) ↦ rw (attempts_ok n t last c r h) (omega (arith, metered t c.handler))
      | inr (x, h) ↦
          let rest = attempts_calls n t (some x) (handled t c) in
          rw (attempts_err n t last c x h) (
            omega (arith, rest.0, metered t c.handler),
            λ f. omega (arith, rest.1 f, metered t c.handler),
          )
    ]

    -- With a handler that counts its calls, a message is processed after at most `max_retries +
    -- 1` calls of it, or it is counted as failed after exactly so many.
    process_one_calls :
        (t : T) (c : ConsumerState H D)
        → let c' = process_one parts t c in
          ((c'.processed ≡ c.processed + 1)
            × (calls c'.handler ≤ calls c.handler + (parts.max_retries + 1)))
          ⊎ ((c'.failed ≡ c.failed + 1)
              × (calls c'.handler ≡ calls c.handler + (parts.max_retries + 1)))
    unfolding process_one
    process_one_calls t c =
        let (most, all) = attempts_calls (suc parts.max_retries) t none c in
        let counted = attempts-IsCounted (suc parts.max_retries) t none c in
        elim (one_more counted.once counted.processed_grows counted.failed_grows) [
          | inl ok_ ↦ inl (ok_, omega (arith, most))
          | inr failed ↦ inr (failed, omega (arith, all failed))
        ]
      where
        one_more :
            {p f p' f' : ℕ} → p' + f' ≡ p + f + 1 → p ≤ p' → f ≤ f' → (p' ≡ p + 1) ⊎ (f' ≡ f + 1)
        one_more h k l = ground arith

  module _ (publish : T → Option E → D → Result (Unit {0}) (Unit {0}) × D)
      (configured : parts.send ≡ some publish)
      (sends : (t : T) (x : Option E) (d : D) → (publish t x d).0 ≡ ok tt) where
    give_up_sent :
        (t : T) (last : Option E) (c : ConsumerState H D)
        → (give_up parts t last c).dead_lettered ≡ c.dead_lettered + 1
    unfolding give_up
    give_up_sent t last c = ground (arith, configured, sends t last c.dlq)

    attempts_sent :
        (n : ℕ) (t : T) (last : Option E) (c : ConsumerState H D)
        → let c' = attempts parts n t last c in
          c'.dead_lettered + c.failed ≡ c.dead_lettered + c'.failed
    attempts_sent zero t last c =
        unfold attempts in omega (arith, give_up_sent t last c, give_up_failed t last c)
    attempts_sent (suc n) t last c = elim (Result-cases (parts.handler t c.handler).0) [
      | inl (r, h) ↦ rw (attempts_ok n t last c r h) (omega arith)
      | inr (x, h) ↦
          let rest = attempts_sent n t (some x) (handled t c) in
          rw (attempts_err n t last c x h) (omega (arith, rest))
    ]

    -- With a dead-letter producer whose sends succeed, the dead letters grow exactly as the
    -- failures do.
    pub process_one_sent :
        (t : T) (c : ConsumerState H D)
        → let c' = process_one parts t c in
          c'.dead_lettered + c.failed ≡ c.dead_lettered + c'.failed
    unfolding process_one
    process_one_sent t c = attempts_sent (suc parts.max_retries) t none c
