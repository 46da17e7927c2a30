-- ===== src/State/Manager/Bulk/Tally.antt =====
-- What a warm start leaves in a store: each entity of the table is merged once, with all its rows.
use real_time_risk_fraud_eng.Prelude.{◌≡◌, Option, some, List, keep, none, ◌+◌, ◌++◌, count, map}
use real_time_risk_fraud_eng.Prelude.Keys.{Hashable, ◌==◌}
use real_time_risk_fraud_eng.Prelude.Distinct.{Distinct}
use real_time_risk_fraud_eng.Float.{Float, Arithmetic, nan, le, min, max}
use real_time_risk_fraud_eng.State.Entity.{EntityState, extreme, cutoff, day_seconds}
use real_time_risk_fraud_eng.State.Backend.{Backend}
use real_time_risk_fraud_eng.State.Backend.Contract.{IsStore}
use real_time_risk_fraud_eng.State.Manager.Trace.{or_new}
use real_time_risk_fraud_eng.State.Manager.Bulk.{Row, Statistics, group, merged, m2_of, mean_of}

module _ {K I S : Type 0} ⦃hash : Hashable K⦄ (A : Arithmetic) (B : Backend K I S)
    (view : S → K → Option EntityState) (store : IsStore B view) (stats : Statistics K) where
  open store use {get-view, put-view}

  abbrev value_of : Option Float → Float
  value_of none = nan
  value_of (some x) = x

  abbrev merge_into : Float → List (Row K) → K → EntityState → EntityState
  merge_into as_of rows k x =
      merged A B stats as_of (group k rows) x (value_of (m2_of A B stats (group k rows) x))

  -- The rows of an entity can be merged into its state: no square overflows.
  abbrev pub Fits : List (Row K) → S → K → Type 0
  Fits rows s k = (m2 : Float) × (m2_of A B stats (group k rows) (or_new (view s k)) ≡ some m2)

  -- The state after the merge of the rows of `j`, against the state before.
  pub record IsCombined (now : Float) (d : List (Row K)) (j : K) (y x : EntityState) : Type 0 where
    pub tally : x.tally ≡ y.tally + count (λ r. r.entity == j) d
    pub m2 : some x.m2 ≡ m2_of A B stats (group j d) y
    pub mean : x.mean_amt ≡ mean_of A B stats (group j d) y
    pub low :
        x.min_amt ≡ some (extreme min y.min_amt (stats.least (map (λ r. r.amount) (group j d))))
    pub high :
        x.max_amt ≡ some (extreme max y.max_amt (stats.greatest (map (λ r. r.amount) (group j d))))
    pub last : x.last_time ≡ some (stats.greatest (map (λ r. r.time) (group j d)))
    pub recent :
        x.recent_times
        ≡ y.recent_times
          ++ stats.ascending (keep (le (cutoff A day_seconds now)) (map (λ r. r.time) (group j d)))
