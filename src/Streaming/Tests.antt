-- ===== src/Streaming/Tests.antt =====
-- A handler with an engine that counts its calls, and a consumer that retries once.
use real_time_risk_fraud_eng.Prelude.{
  ◌≡◌, refl, ℕ, zero, suc, ◌+◌, Option, none, some, List, ◌∷◌, [], true, arith,
}
use real_time_risk_fraud_eng.Prelude.Keys.{int_key, lookup}
use real_time_risk_fraud_eng.Result.{Result, ok, err}
use real_time_risk_fraud_eng.Streaming.Handler.{HandlerState, HandlerParts, handle}
use real_time_risk_fraud_eng.Streaming.Handler.Cache.{IsCache, handle-IsCache}
use real_time_risk_fraud_eng.Streaming.Handler.Duplicates.{handle_duplicate}
use real_time_risk_fraud_eng.Streaming.Consumer.{ConsumerState, ConsumerParts, process_one}
use real_time_risk_fraud_eng.Streaming.Consumer.Accounting.{
  IsCounted, process_one-IsCounted, process_one_sent,
}
use real_time_risk_fraud_eng.Streaming.Broker.{run_until_empty}
use real_time_risk_fraud_eng.Streaming.Broker.Delivery.{process_all, run_until_empty-eq-process_all}

-- A message is its id, and the engine answers with the number of its calls.
abbrev parts : HandlerParts ℕ ℕ ℕ ℕ ℕ (Unit {0})
parts = record {
  id_of = λ t. some t;
  engine = λ t calls. (ok (calls + 1), calls + 1);
  is_validation = λ x. true;
  send = none;
  cache_size = 2;
}

abbrev start : HandlerState ℕ ℕ ℕ ℕ
start = record {
  engine = 0;
  producer = 0;
  processed = 0;
  rejected = 0;
  duplicates_skipped = 0;
  seen = [];
  seen_order = [];
}

start-IsCache : IsCache 2 start
start-IsCache = record { same_ids = refl; distinct = tt; bounded = omega arith }

handle-IsCache_example : IsCache parts.cache_size (handle parts 7 start).1
handle-IsCache_example = handle-IsCache parts 7 start start-IsCache

first_answer : (handle parts 7 start).0 ≡ ok 1
unfolding handle lookup
first_answer = refl

handle_duplicate_example :
    let h' = (handle parts 7 start).1 in
    handle parts 7 h' ≡ (ok 1, record h' { duplicates_skipped = h'.duplicates_skipped + 1 })
handle_duplicate_example =
    handle_duplicate parts 7 7 7 1 start (omega arith) start-IsCache refl refl first_answer

-- A handler that counts its calls and raises on the message 0.
abbrev picky : ℕ → ℕ → Result (Unit {0}) ℕ × ℕ
picky t calls = elim t [ zero ↦ (err tt, calls + 1) | suc n ↦ (ok n, calls + 1) ]

abbrev publish : ℕ → Option (Unit {0}) → ℕ → Result (Unit {0}) (Unit {0}) × ℕ
publish t last sent = (ok tt, sent + 1)

abbrev consumer : ConsumerParts ℕ ℕ (Unit {0}) ℕ ℕ
consumer = record { handler = picky; send = some publish; max_retries = 1 }

abbrev idle : ConsumerState ℕ ℕ
idle = record { handler = 0; dlq = 0; processed = 0; failed = 0; dead_lettered = 0 }

process_one-IsCounted_example : IsCounted idle (process_one consumer 0 idle)
process_one-IsCounted_example = process_one-IsCounted consumer 0 idle

process_one_sent_example :
    let c' = process_one consumer 0 idle in c'.dead_lettered + 0 ≡ 0 + c'.failed
process_one_sent_example = process_one_sent consumer publish refl (λ t x d. refl) 0 idle

abbrev messages : List ℕ
messages = 3 ∷ 0 ∷ 5 ∷ []

run_until_empty-eq-process_all_example :
    run_until_empty consumer 4 (record { queue = messages }) idle
    ≡ some (record { queue = [] }, process_all consumer messages idle)
run_until_empty-eq-process_all_example =
    run_until_empty-eq-process_all consumer 4 messages idle (omega arith)
