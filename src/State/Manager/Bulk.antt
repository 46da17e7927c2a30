-- ===== src/State/Manager/Bulk.antt =====
-- `bulk_initialize` (src/engine/state.py): the warm start from a table of past transactions. The table's
-- sorting and the statistics of a column (pandas, NumPy) are parameters.
pub mod Tally
use real_time_risk_fraud_eng.Prelude.{
  ℕ, ◌+◌, Bool, true, false, not, Option, none, some, List, [], ◌∷◌, ◌++◌, map, keep, length,
  if◌then◌else◌, eqb,
}
use real_time_risk_fraud_eng.Prelude.Keys.{Hashable, ◌==◌}
use real_time_risk_fraud_eng.Result.{ok}
use real_time_risk_fraud_eng.Exec.{Exec, pure, raise, ◌>>=◌, ◌>>◌}
use real_time_risk_fraud_eng.Float.{Float, min, max, le, Arithmetic}
use real_time_risk_fraud_eng.State.Entity.{EntityState, extreme, float_of, cutoff, day_seconds}
use real_time_risk_fraud_eng.State.Backend.{Backend, StateError, overflow}
use real_time_risk_fraud_eng.State.Manager.{get_or_create, change}

-- A row of `historical_df`, its identifier left out.
pub record Row (K : Type 0) : Type 0 where
  pub entity : K
  pub time : Float
  pub amount : Float

-- `sort_values` by time and identifier; `max` of a pandas column, which skips NaN; of a NumPy array the mean,
-- the sum of the squared deviations from it, the least and the greatest value, and `np.sort`; and `x ** 2` of
-- a Python float, `none` where it raises OverflowError.
pub record Statistics (K : Type 0) : Type 0 where
  pub by_time : List (Row K) → List (Row K)
  pub column_max : List Float → Float
  pub mean : List Float → Float
  pub deviations : List Float → Float
  pub least : List Float → Float
  pub greatest : List Float → Float
  pub ascending : List Float → List Float
  pub square : Float → Option Float

-- `groupby(sort=False)`: the entities in the order of their first rows.
unfoldable pub entities : {K : Type 0} ⦃hash : Hashable K⦄ → List (Row K) → List K
entities [] = []
entities (r ∷ rows) = r.entity ∷ keep (λ k. not (k == r.entity)) (entities rows)

-- The rows of one group.
unfoldable pub group : {K : Type 0} ⦃hash : Hashable K⦄ → K → List (Row K) → List (Row K)
group k rows = keep (λ r. r.entity == k) rows

module _ {K I S : Type 0} ⦃hash : Hashable K⦄ (A : Arithmetic) (B : Backend K I S)
    (stats : Statistics K) where
  open A use {add, sub, mul, div}

  -- The mean and the deviations of the history and of the block together, by Chan's formula.
  unfoldable pub combined_mean : ℕ → Float → ℕ → Float → Float
  combined_mean n_a mean_a n_b mean_b =
      add mean_a (div (mul (sub mean_b mean_a) (float_of n_b)) (float_of (n_a + n_b)))

  unfoldable pub combined_m2 : ℕ → Float → Float → ℕ → Float → Float → Option Float
  combined_m2 n_a mean_a m2_a n_b mean_b m2_b = elim (stats.square (sub mean_b mean_a)) [
    | none ↦ none
    | some q ↦ some (
        add (add m2_a m2_b)
          (div (mul (mul q (float_of n_a)) (float_of n_b)) (float_of (n_a + n_b))))
  ]

  -- The sum of squared deviations of an entity with a block of rows.
  unfoldable pub m2_of : List (Row K) → EntityState → Option Float
  unfolding combined_m2
  m2_of rows s =
      let amounts = map (λ r. r.amount) rows in
      if eqb s.tally 0
      then some (stats.deviations amounts)
      else combined_m2 s.tally s.mean_amt s.m2 (length rows) (stats.mean amounts)
          (stats.deviations amounts)

  -- The mean after the block.
  unfoldable pub mean_of : List (Row K) → EntityState → Float
  unfolding combined_mean
  mean_of rows s =
      let block_mean = stats.mean (map (λ r. r.amount) rows) in
      if eqb s.tally 0
      then block_mean
      else combined_mean s.tally s.mean_amt (length rows) block_mean

  -- The body of the loop: one entity's state with a block of rows merged in.
  unfoldable pub merged : Float → List (Row K) → EntityState → Float → EntityState
  unfolding mean_of
  merged as_of rows s m2 =
      let amounts = map (λ r. r.amount) rows in
      let times = map (λ r. r.time) rows in
      let n = length rows in
      record {
        tally = if eqb s.tally 0 then n else s.tally + n;
        mean_amt = mean_of rows s;
        m2 = m2;
        min_amt = some (extreme min s.min_amt (stats.least amounts));
        max_amt = some (extreme max s.max_amt (stats.greatest amounts));
        last_time = some (stats.greatest times);
        recent_times =
            s.recent_times ++ stats.ascending (keep (le (cutoff A day_seconds as_of)) times);
      }

  -- The object is written with what was merged; where the square overflows, its mean is already set.
  unfoldable pub store_merged :
      Float → List (Row K) → K → EntityState → Option Float → Exec StateError S (Unit {0})
  unfolding mean_of merged
  store_merged as_of rows k s none = do
    change A B k (record s { mean_amt = mean_of rows s })
    raise overflow
  store_merged as_of rows k s (some m2) = do
    change A B k (merged as_of rows s m2)
    B.put k (merged as_of rows s m2)

  -- One round of the loop over the groups.
  unfoldable pub initialize_one : Float → List (Row K) → K → Exec StateError S (Unit {0})
  unfolding store_merged m2_of
  initialize_one as_of rows k = do
    s ← get_or_create A B k
    store_merged as_of (group k rows) k s (m2_of (group k rows) s)

  unfoldable pub initialize_all : Float → List (Row K) → List K → Exec StateError S (Unit {0})
  initialize_all as_of rows [] = pure tt
  initialize_all as_of rows (k ∷ ks) = do initialize_one as_of rows k; initialize_all as_of rows ks

  -- `as_of_time`, by default the last time of the table
  unfoldable pub as_of_time : Option Float → List (Row K) → Float
  as_of_time none rows = stats.column_max (map (λ r. r.time) rows)
  as_of_time (some t) rows = t

  -- `bulk_initialize`
  unfoldable pub bulk_initialize : List (Row K) → Option Float → Exec StateError S (Unit {0})
  bulk_initialize [] as_of = pure tt
  bulk_initialize (r ∷ rows) as_of =
      let d = stats.by_time (r ∷ rows) in initialize_all (as_of_time as_of d) d (entities d)
