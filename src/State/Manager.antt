-- ===== src/State/Manager.antt =====
-- `BehavioralStateManager` (src/engine/state.py) over a backend.
pub mod Snapshot
pub mod Trace
pub mod Refines
pub mod Simulation
pub mod Bulk
use real_time_risk_fraud_eng.Prelude.{ℕ, String, Option, none, some, List, [], ◌∷◌}
use real_time_risk_fraud_eng.Result.{Result, ok, err}
use real_time_risk_fraud_eng.Exec.{Exec, pure, lift, ◌>>=◌, ◌>>◌}
use real_time_risk_fraud_eng.Float.{Float, Arithmetic}
use real_time_risk_fraud_eng.State.Entity.{
  EntityState, Features, fresh, features_of, read_prune, updated,
}
use real_time_risk_fraud_eng.State.Backend.{
  Backend, StateError, bad_key, StateDict, to_dict, from_dict,
}

module _ {K I S : Type 0} (A : Arithmetic) (B : Backend K I S) where
  -- `reset`
  unfoldable pub reset : Exec StateError S (Unit {0})
  reset = B.clear

  unfoldable pub or_fresh : K → Option EntityState → Exec StateError S EntityState
  or_fresh k none = B.put k fresh >> pure fresh
  or_fresh k (some s) = pure s

  -- `_get_or_create`
  unfoldable pub get_or_create : K → Exec StateError S EntityState
  unfolding or_fresh
  get_or_create k = do found ← B.get k; or_fresh k found

  -- `entity_count`
  unfoldable pub entity_count : Exec StateError S ℕ
  entity_count = B.size

  -- An assignment to the fields of the object that `get` returned.
  unfoldable pub change : K → EntityState → Exec StateError S (Unit {0})
  change k s store = (ok tt, B.mutated k s store)

  -- The pruning of `_velocity_counts` changes the state that was read.
  prune_found : K → Float → Option EntityState → Exec StateError S (Unit {0})
  unfolding change
  prune_found k now none = pure tt
  prune_found k now (some s) = change k (read_prune A now s)

  -- `compute_features`
  unfoldable pub compute_features : K → Float → Float → Exec StateError S Features
  unfolding prune_found
  compute_features k now amount = do
    found ← B.get k
    prune_found k now found
    pure (features_of A now amount found)

  -- `update`
  unfoldable pub update : K → Float → Float → Exec StateError S (Unit {0})
  unfolding get_or_create change
  update k now amount = do
    s ← get_or_create k
    change k (updated A now amount s)
    B.put k (updated A now amount s)

  snapshot_of : Option EntityState → Option StateDict
  snapshot_of none = none
  snapshot_of (some s) = some (to_dict A s)

  -- `get_state_snapshot`
  unfoldable pub get_state_snapshot : K → Exec StateError S (Option StateDict)
  unfolding snapshot_of
  get_state_snapshot k = do found ← B.get k; pure (snapshot_of found)

  -- {str(k): v.to_dict() for k, v in …}
  unfoldable pub dicts : (I → String) → List (I × EntityState) → List (String × StateDict)
  dicts show [] = []
  dicts show ((i, s) ∷ rest) = (show i, to_dict A s) ∷ dicts show rest

  -- `serialize`, with `str`
  unfoldable pub serialize : (I → String) → Exec StateError S (List (String × StateDict))
  unfolding dicts
  serialize show = do found ← B.items; pure (dicts show found)

  -- `key_type(k)`, which may raise
  key_of : Option K → Exec StateError S K
  key_of none = lift (err bad_key)
  key_of (some k) = pure k

  unfoldable pub load_all :
      (String → Option K) → List (String × StateDict) → Exec StateError S (Unit {0})
  unfolding key_of
  load_all read [] = pure tt
  load_all read ((name, d) ∷ rest) = do
    k ← key_of (read name)
    B.put k (from_dict d)
    load_all read rest

  -- `load_serialized`, with `key_type`
  unfoldable pub load_serialized :
      (String → Option K) → List (String × StateDict) → Exec StateError S (Unit {0})
  unfolding load_all
  load_serialized read saved = do B.clear; load_all read saved
