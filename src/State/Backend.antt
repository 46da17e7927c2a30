-- ===== src/State/Backend.antt =====
-- Storage of entity states (src/engine/state_backend.py): the interface `StateBackend`, the plain
-- dict, and Redis. An operation may raise `StateBackendUnavailableError`.
pub mod Contract
use real_time_risk_fraud_eng.Prelude.{
  ℕ, zero, suc, Bool, String, Option, none, some, List, [], ◌∷◌, length,
}
use Prim.Native.String.{◌++◌}
use real_time_risk_fraud_eng.Prelude.Keys.{Hashable, Dict, lookup, insert}
use real_time_risk_fraud_eng.Result.{ok, err}
use real_time_risk_fraud_eng.Exec.{Exec, pure, gets, ◌>>=◌, ◌>>◌}
use real_time_risk_fraud_eng.Float.{Float, Arithmetic}
use real_time_risk_fraud_eng.State.Entity.{EntityState, float_of}

-- `bad_key` is the ValueError of `key_type(k)` in `load_serialized`, `overflow` the OverflowError of
-- `delta ** 2` in `bulk_initialize`.
pub data StateError : Type 0 where
  unavailable bad_key overflow : StateError

-- `I` is the type of the identifiers that `items` yields. `mutated k s` is the effect on the store
-- of changing, to `s`, the object that `get` returned for `k`: with a dict it is the stored object.
pub record Backend (K I S : Type 0) : Type 0 where
  pub get : K → Exec StateError S (Option EntityState)
  pub mutated : K → EntityState → S → S
  pub put : K → EntityState → Exec StateError S (Unit {0})
  pub items : Exec StateError S (List (I × EntityState))
  pub clear : Exec StateError S (Unit {0})
  pub size : Exec StateError S ℕ

-- `InMemoryStateBackend`
unfoldable pub in_memory : {K : Type 0} ⦃e : Hashable K⦄ → Backend K K (Dict K EntityState)
in_memory = record {
  get = λ k d. (ok (lookup k d), d);
  mutated = λ k s d. insert k s d;
  put = λ k s d. (ok tt, insert k s d);
  items = λ d. (ok d, d);
  clear = λ d. (ok tt, []);
  size = λ d. (ok (length d), d);
}

-- The dict of `EntityState.to_dict`, which derives `sum_amt` from the mean and the count.
pub record StateDict : Type 0 where
  pub tally : ℕ
  pub sum_amt : Float
  pub mean_amt : Float
  pub m2 : Float
  pub min_amt : Option Float
  pub max_amt : Option Float
  pub last_time : Option Float
  pub recent_times : List Float

unfoldable pub to_dict : Arithmetic → EntityState → StateDict
to_dict A s = record {
  tally = s.tally;
  sum_amt = A.mul s.mean_amt (float_of s.tally);
  mean_amt = s.mean_amt;
  m2 = s.m2;
  min_amt = s.min_amt;
  max_amt = s.max_amt;
  last_time = s.last_time;
  recent_times = s.recent_times;
}

unfoldable pub from_dict : StateDict → EntityState
from_dict d = record {
  tally = d.tally;
  mean_amt = d.mean_amt;
  m2 = d.m2;
  min_amt = d.min_amt;
  max_amt = d.max_amt;
  last_time = d.last_time;
  recent_times = d.recent_times;
}

-- The client library, over the state `S` of its connection and server: a raise is its `RedisError`,
-- wrapped by `_wrap_errors`. `P` is the type of stored payloads.
pub record RedisClient (S P : Type 0) : Type 0 where
  pub get : String → Exec StateError S (Option P)
  pub set : String → P → Option ℕ → Exec StateError S (Unit {0})
  pub keys : String → Exec StateError S (List String)
  pub delete : List String → Exec StateError S (Unit {0})
  pub ping : Exec StateError S Bool

-- The standard library's and the runtime's part: JSON text and `str` of a key.
pub record Encoding (K P : Type 0) : Type 0 where
  pub dumps : StateDict → P
  pub loads : P → StateDict
  pub show_key : K → String

-- s[n:]
unfoldable pub drop_chars : ℕ → String → String
drop_chars zero s = s
drop_chars (suc n) String.[] = ""
drop_chars (suc n) (String.◌∷◌ c s) = drop_chars n s

-- len(s)
unfoldable pub chars : String → ℕ
chars String.[] = 0
chars (String.◌∷◌ c s) = suc (chars s)

-- `RedisStateBackend`, with its `key_prefix` and `ttl_seconds`.
module _ {K S P : Type 0} (A : Arithmetic) (client : RedisClient S P) (encoding : Encoding K P)
    (key_prefix : String) (ttl_seconds : Option ℕ) where
  -- `_key`
  unfoldable pub redis_key : K → String
  redis_key k = key_prefix ++ encoding.show_key k

  -- `None if raw is None else from_dict(json.loads(raw))`
  unfoldable pub decoded : Option P → Option EntityState
  decoded none = none
  decoded (some raw) = some (from_dict (encoding.loads raw))

  found_item : String → Option P → List (String × EntityState) → List (String × EntityState)
  found_item key none rest = rest
  found_item key (some raw) rest =
      (drop_chars (chars key_prefix) key, from_dict (encoding.loads raw)) ∷ rest

  -- The loop of `items`: a key that has gone meanwhile is skipped.
  redis_items : List String → Exec StateError S (List (String × EntityState))
  unfolding found_item drop_chars chars
  redis_items [] = pure []
  redis_items (key ∷ keys) = do
    raw ← client.get key
    rest ← redis_items keys
    pure (found_item key raw rest)

  delete_all : List String → Exec StateError S (Unit {0})
  delete_all [] = pure tt
  delete_all (key ∷ keys) = client.delete (key ∷ keys)

  unfoldable pub redis : Backend K String S
  unfolding redis_items delete_all
  redis = record {
    get = λ k. (do raw ← client.get (redis_key k); pure (decoded raw));
    mutated = λ k s store. store;
    put = λ k s. client.set (redis_key k) (encoding.dumps (to_dict A s)) ttl_seconds;
    items = (do keys ← client.keys (key_prefix ++ "*"); redis_items keys);
    clear = (do keys ← client.keys (key_prefix ++ "*"); delete_all keys);
    size = (do keys ← client.keys (key_prefix ++ "*"); pure (length keys));
  }
