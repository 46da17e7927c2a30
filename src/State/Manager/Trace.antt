-- ===== src/State/Manager/Trace.antt =====
-- The features of a chronological stream are those of each entity's whole history, whatever the
-- backend and whether or not it keeps the pruning of a read.
use real_time_risk_fraud_eng.Prelude.{
  ◌≡◌, true, Option, none, some, List, [], ◌∷◌, ◌++◌, count, if◌then◌else◌,
}
use real_time_risk_fraud_eng.Prelude.Keys.{Hashable, ◌==◌}
use real_time_risk_fraud_eng.Result.{Result, ok}
use real_time_risk_fraud_eng.Float.{Float, le, Arithmetic}
use real_time_risk_fraud_eng.State.Entity.{
  EntityState, Features, fresh, features_from, history, updated, cutoff, hour_seconds, day_seconds,
  times_of,
}
use real_time_risk_fraud_eng.State.Backend.{Backend, StateError}
use real_time_risk_fraud_eng.State.Manager.{compute_features, update}

-- `read k t a` asks for the features of a transaction of `k` at time `t`; `write k t a` records it.
pub data Event (K : Type 0) : Type 0 where
  read write : K → Float → Float → Event K

abbrev pub time_of : {K : Type 0} → Event K → Float
time_of (read k t a) = t
time_of (write k t a) = t

-- No event is before the one that precedes it.
abbrev pub Chronological : {K : Type 0} → Float → List (Event K) → Type 0
Chronological clock [] = Unit
Chronological clock (e ∷ es) = (le clock (time_of e) ≡ true) × Chronological (time_of e) es

module _ (A : Arithmetic) where
  -- An update that forgets no time.
  unfoldable pub recorded : Float → Float → EntityState → EntityState
  recorded now amount s = record (updated A now amount s) {
    recent_times = s.recent_times ++ now ∷ [];
  }

  -- The features, with the velocity counts taken over all recorded times.
  unfoldable pub full_features : Float → Float → Option EntityState → Features
  unfolding times_of
  full_features now amount found = features_from A amount (history A now found) (
    count (le (cutoff A hour_seconds now)) (times_of A found),
    count (le (cutoff A day_seconds now)) (times_of A found),
    [],
  )

unfoldable pub or_new : Option EntityState → EntityState
or_new none = fresh
or_new (some s) = s

module _ {K : Type 0} ⦃e : Hashable K⦄ (A : Arithmetic) where
  -- The specification: for each entity its state with every time that was recorded.
  unfoldable pub spec_update : K → Float → Float → (K → Option EntityState) → K → Option EntityState
  unfolding or_new recorded
  spec_update k t a all j = if k == j then some (recorded A t a (or_new (all k))) else all j

  unfoldable pub spec_trace :
      List (Event K) → (K → Option EntityState) → List (Result StateError Features)
  spec_trace [] all = []
  spec_trace (read k t a ∷ es) all = ok (full_features A t a (all k)) ∷ spec_trace es all
  spec_trace (write k t a ∷ es) all = spec_trace es (spec_update k t a all)

  -- What a client of the manager sees.
  unfoldable pub trace :
      {I S : Type 0} → Backend K I S → List (Event K) → S → List (Result StateError Features)
  trace B [] s = []
  trace B (read k t a ∷ es) s = let (r, s') = compute_features A B k t a s in r ∷ trace B es s'
  trace B (write k t a ∷ es) s = trace B es (update A B k t a s).1
