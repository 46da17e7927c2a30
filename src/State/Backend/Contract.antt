-- ===== src/State/Backend/Contract.antt =====
-- What the manager relies on in a backend, and the two implementations that provide it.
use text.Mathlib.TextEquality.{eq_iff}
use text.Mathlib.TextLemmas.{append_cancel_left}
use real_time_risk_fraud_eng.Prelude.{
  Bool, true, false, ◌≡◌, refl, ◌⊎◌, inl, inr, String, Option, none, some, ℕ, arith, if◌then◌else◌,
  ap,
}
use real_time_risk_fraud_eng.Prelude.Keys.{Hashable, ◌==◌, lookup, lookup-insert, str_key}
use real_time_risk_fraud_eng.Result.{ok}
use real_time_risk_fraud_eng.Float.{Arithmetic}
use real_time_risk_fraud_eng.State.Entity.{EntityState}
use real_time_risk_fraud_eng.State.Backend.{
  Backend, in_memory, RedisClient, Encoding, redis, redis_key, decoded, to_dict, from_dict,
  StateDict,
}

-- A map from keys to states that does not fail. Whether a change of an object that `get` returned
-- reaches the store is left open.
pub record IsStore {K I S : Type 0} ⦃e : Hashable K⦄ (B : Backend K I S)
    (view : S → K → Option EntityState) : Type 0 where
  pub get-view : (k : K) (s : S) → B.get k s ≡ (ok (view s k), s)
  pub put-view :
      (k : K) (x : EntityState) (s : S)
      → (s' : S) × (B.put k x s ≡ (ok tt, s'))
        × ((j : K) → view s' j ≡ (if k == j then some x else view s j))
  pub mutated-view :
      (k j : K) (x : EntityState) (s : S)
      → (view (B.mutated k x s) j ≡ (if k == j then some x else view s j))
        ⊎ (view (B.mutated k x s) j ≡ view s j)

-- The dict is such a map, from the keys that it holds.
pub in_memory-IsStore :
    {K : Type 0} ⦃e : Hashable K⦄ → IsStore (in_memory {K = K}) (λ d k. lookup k d)
unfolding in_memory
in_memory-IsStore = record {
  get-view = λ k d. refl;
  put-view = λ k x d. (_, refl, λ j. lookup-insert k j x d);
  mutated-view = λ k j x d. inl (lookup-insert k j x d);
}

-- A Redis server that is reachable and holds the keys without an expiry.
pub record IsReliable {S P : Type 0} (client : RedisClient S P) : Type 0 where
  pub stored : S → String → Option P
  pub get-stored : (key : String) (s : S) → client.get key s ≡ (ok (stored s key), s)
  pub set-stored :
      (key : String) (p : P) (s : S)
      → (s' : S) × (client.set key p none s ≡ (ok tt, s'))
        × ((j : String) → stored s' j ≡ (if key == j then some p else stored s j))

-- JSON gives back what was written, and different keys have different texts.
pub record IsFaithful {K P : Type 0} (encoding : Encoding K P) : Type 0 where
  pub loads-dumps : (d : StateDict) → encoding.loads (encoding.dumps d) ≡ d
  pub show_key_injective : (k j : K) → encoding.show_key k ≡ encoding.show_key j → k ≡ j

-- `from_dict(to_dict(s))` is `s`: the derived `sum_amt` is dropped.
pub from_dict-to_dict : (A : Arithmetic) (s : EntityState) → from_dict (to_dict A s) ≡ s
unfolding from_dict to_dict
from_dict-to_dict A s = refl

redis_key_injective :
    {K S P : Type 0} (A : Arithmetic) (client : RedisClient S P) (encoding : Encoding K P)
    (key_prefix : String) (ttl : Option ℕ)
    → IsFaithful encoding
    → (k j : K)
    → redis_key A client encoding key_prefix ttl k ≡ redis_key A client encoding key_prefix ttl j
    → k ≡ j
unfolding redis_key
redis_key_injective A client encoding key_prefix ttl f k j h =
    f.show_key_injective k j (append_cancel_left key_prefix _ _ h)

module _ {K S P : Type 0} ⦃e : Hashable K⦄ (A : Arithmetic) (client : RedisClient S P)
    (encoding : Encoding K P) (key_prefix : String) (reliable : IsReliable client)
    (faithful : IsFaithful encoding) where
  abbrev pub redis_view : S → K → Option EntityState
  redis_view s k =
      decoded A client encoding key_prefix none
        (reliable.stored s (redis_key A client encoding key_prefix none k))

  -- The keys are told apart by their texts.
  same_key :
      (k j : K)
      → (redis_key A client encoding key_prefix none k
          == redis_key A client encoding key_prefix none j)
        ≡ (k == j)
  same_key k j = ground (
    arith,
    e.equal_iff k j,
    eq_iff (redis_key A client encoding key_prefix none k)
        (redis_key A client encoding key_prefix none j),
    redis_key_injective A client encoding key_prefix none faithful k j,
  )

  decoded_if :
      (b : Bool) (x : EntityState) (o : Option P)
      → decoded A client encoding key_prefix none
          (if b then some (encoding.dumps (to_dict A x)) else o)
        ≡ (if b then some x else decoded A client encoding key_prefix none o)
  unfolding decoded
  decoded_if true x o = rw (faithful.loads-dumps (to_dict A x)) (ap some (from_dict-to_dict A x))
  decoded_if false x o = refl

  -- Without an expiry, over a reachable server and with a faithful encoding, the Redis backend is
  -- such a map too.
  pub redis-IsStore : IsStore (redis A client encoding key_prefix none) redis_view
  unfolding redis
  redis-IsStore = record {
    get-view = λ k s. rw (reliable.get-stored (redis_key A client encoding key_prefix none k) s);
    put-view = λ k x s.
        let (s', stored, after) = reliable.set-stored _ _ s in
        (
          s',
          stored,
          λ j.
              rw (after (redis_key A client encoding key_prefix none j), same_key k j)
                (decoded_if (k == j) x
                  (reliable.stored s (redis_key A client encoding key_prefix none j))),
        );
    mutated-view = λ k j x s. inr refl;
  }
