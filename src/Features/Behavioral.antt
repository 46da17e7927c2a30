-- ===== src/Features/Behavioral.antt =====
-- `compute_behavioral_features` (src/features/behavioral.py). pandas and NumPy are the parameter `Pandas`;
-- elementwise arithmetic on columns is `map` and `zip_with`.
pub mod Groups
pub mod Extremes
pub mod Recall
pub mod Scatter
pub mod Before
pub mod Windows
pub mod Output
pub mod Parity
pub mod Sample
use real_time_risk_fraud_eng.Prelude.{
  ℕ, zero, suc, ◌+◌, Bool, true, false, not, String, Option, none, some, List, [], ◌∷◌, map, length,
  if◌then◌else◌,
}
use real_time_risk_fraud_eng.Prelude.Int.{ℤ, pos, sub_ℕ}
use real_time_risk_fraud_eng.Prelude.Keys.{str_key, ◌==◌}
use real_time_risk_fraud_eng.Prelude.Distinct.{elem}
use real_time_risk_fraud_eng.Result.{Result, ok, err, ◌>>=◌, ◌>>◌, raise_if}
use real_time_risk_fraud_eng.Float.{Float, nan, is_nan, lt, zero_float, one_float, Arithmetic}
use real_time_risk_fraud_eng.State.Entity.{same, float_of, hour_seconds, day_seconds}
use real_time_risk_fraud_eng.Features.Columns.{get_elem?, zip_with, Keyed, pair}

-- The four columns that are read.
pub record Row (K I : Type 0) : Type 0 where
  pub transaction_id : I
  pub time : Float
  pub entity : K
  pub amount : Float

pub record Frame (K I : Type 0) : Type 0 where
  pub columns : List String
  pub rows : List (Row K I)

-- The columns of `out`, before the velocity counts.
pub record Offline : Type 0 where
  pub prev_txn_count : Float
  pub prev_txn_count_log1p : Float
  pub hist_mean_amt : Float
  pub hist_std_amt : Float
  pub hist_min_amt : Float
  pub hist_max_amt : Float
  pub time_since_prev_txn : Float
  pub amt_to_hist_mean_ratio : Float
  pub amt_diff_from_hist_mean : Float
  pub amt_zscore : Float

-- `bhv_prior_count_1h` and `bhv_prior_count_24h`
pub record Velocity : Type 0 where
  pub hour : ℤ
  pub day : ℤ

-- `sort_values` sorts by time and id; the grouped operations take a column beside its keys; `merge` is the
-- left merge on ids with validate="one_to_one", `none` where it raises.
pub record Pandas (K I : Type 0) : Type 0 where
  pub sort_values : List (Row K I) → List (Row K I)
  pub cumcount : Keyed K Float → List ℕ
  pub cumsum : Keyed K Float → List Float
  pub shift : Keyed K Float → List Float
  pub cummin : Keyed K Float → List Float
  pub cummax : Keyed K Float → List Float
  pub indices : List K → List (K × List ℕ)
  pub searchsorted : List Float → Float → ℕ
  pub merge : List (I × Offline) → List (I × Velocity) → Option (List (I × (Offline × Velocity)))

unfoldable pub velocity_row : ℤ → ℤ → Velocity
velocity_row hour_count day_count = record { hour = hour_count; day = day_count }

-- The two assertions and the error of the merge.
pub data OfflineError : Type 0 where
  label_given missing_columns merge_error : OfflineError

-- assert "isFraud" not in df.columns; assert not (required - set(df.columns))
unfoldable pub admitted_columns : List String → Result OfflineError (Unit {0})
admitted_columns columns = do
  raise_if (elem "isFraud" columns) label_given
  raise_if (not (elem "TransactionID" columns)) missing_columns
  raise_if (not (elem "TransactionDT" columns)) missing_columns
  raise_if (not (elem "card1" columns)) missing_columns
  raise_if (not (elem "TransactionAmt" columns)) missing_columns

-- column.replace(0, np.nan)
unfoldable pub without_zero : Float → Float
without_zero x = if same x zero_float then nan else x

-- column.where(column > 0, np.nan)
unfoldable pub where_positive : Float → Float
where_positive x = if lt zero_float x then x else nan

-- column.fillna(0.0)
unfoldable pub filled : Float → Float
filled x = if is_nan x then zero_float else x

-- column.notna().astype("float64")
unfoldable pub is_valid : Float → Float
is_valid x = if is_nan x then zero_float else one_float

-- column.clip(lower=0)
unfoldable pub clipped : Float → Float
clipped x = if lt x zero_float then zero_float else x

-- np.zeros(n, dtype="int64")
unfoldable pub zeros : {X : Type 0} → List X → List ℤ
zeros [] = []
zeros (x ∷ xs) = pos 0 ∷ zeros xs

-- column[i] = v, for a position of the column
unfoldable pub set_at : ℕ → ℤ → List ℤ → List ℤ
set_at i v [] = []
set_at zero v (x ∷ xs) = v ∷ xs
set_at (suc i) v (x ∷ xs) = x ∷ set_at i v xs

-- column[positions] = values
unfoldable pub scatter : List ℕ → List ℤ → List ℤ → List ℤ
scatter [] vs column = column
scatter (i ∷ is) [] column = column
scatter (i ∷ is) (v ∷ vs) column = scatter is vs (set_at i v column)

-- times[positions], for positions of the column
unfoldable pub gather : List Float → List ℕ → List Float
gather times [] = []
gather times (i ∷ is) = elim (get_elem? times i) [
  | none ↦ gather times is
  | some t ↦ t ∷ gather times is
]

module _ {K I : Type 0} (A : Arithmetic) (P : Pandas K I) where
  open A use {add, sub, mul, div, sqrt, log1p}
  open P use {sort_values, cumcount, cumsum, shift, cummin, cummax, indices, searchsorted, merge}

  -- np.arange(len(t)) - np.searchsorted(t, t - seconds, side="left"), from the position `i` on
  unfoldable pub prior_in_window : ℕ → List Float → ℕ → List Float → List ℤ
  prior_in_window seconds all i [] = []
  prior_in_window seconds all i (t ∷ ts) =
      sub_ℕ i (searchsorted all (sub t (float_of seconds))) ∷ prior_in_window seconds all (i + 1) ts

  -- The loop over the groups, for one window.
  unfoldable pub window_counts : ℕ → List Float → List (K × List ℕ) → List ℤ → List ℤ
  unfolding scatter gather prior_in_window
  window_counts seconds times [] counts = counts
  window_counts seconds times ((k, positions) ∷ groups) counts =
      let t = gather times positions in
      window_counts seconds times groups (scatter positions (prior_in_window seconds t 0 t) counts)

  unfoldable pub window_column : ℕ → List (Row K I) → List ℤ
  unfolding window_counts zeros
  window_column seconds d =
      window_counts seconds (map (λ r. r.time) d) (indices (map (λ r. r.entity) d)) (zeros d)

  -- `_compute_velocity_counts`
  unfoldable pub compute_velocity_counts : List (Row K I) → List (I × Velocity)
  unfolding zip_with pair window_column velocity_row
  compute_velocity_counts d =
      zip_with pair (map (λ r. r.transaction_id) d)
        (zip_with velocity_row (window_column hour_seconds d) (window_column day_seconds d))

  -- d.groupby(entity_col)[column]
  unfoldable pub grouped : List (Row K I) → List Float → Keyed K Float
  unfolding zip_with pair
  grouped d column = zip_with pair (map (λ r. r.entity) d) column

  -- The mean and the standard deviation from cumulative sums over the earlier rows of the group.
  unfoldable pub amounts : List (Row K I) → List Float
  amounts d = map (λ r. r.amount) d

  unfoldable pub valid_prior : List (Row K I) → List Float
  unfolding amounts grouped is_valid zip_with
  valid_prior d =
      let valid = map is_valid (amounts d) in zip_with sub (cumsum (grouped d valid)) valid

  unfoldable pub sum_prior : List (Row K I) → List Float → List Float
  unfolding grouped zip_with filled
  sum_prior d column = zip_with sub (cumsum (grouped d column)) (map filled column)

  unfoldable pub hist_mean : List (Row K I) → List Float
  unfolding valid_prior sum_prior zip_with without_zero amounts
  hist_mean d = zip_with div (sum_prior d (amounts d)) (map without_zero (valid_prior d))

  unfoldable pub hist_std : List (Row K I) → List Float
  unfolding valid_prior sum_prior zip_with where_positive clipped amounts
  hist_std d =
      let valid = valid_prior d in
      let squares = map (λ m. mul m m) (hist_mean d) in
      let numerator =
        zip_with sub (sum_prior d (map (λ x. mul x x) (amounts d))) (zip_with mul valid squares) in
      let minus1 = map where_positive (map (λ n. sub n one_float) valid) in
      map sqrt (map clipped (zip_with div numerator minus1))

  unfoldable pub offline_row : ℕ → Float → Float → Float → Float → Float → Float → Offline
  unfolding without_zero
  offline_row count amount mean std low high since = record {
    prev_txn_count = float_of count;
    prev_txn_count_log1p = log1p (float_of count);
    hist_mean_amt = mean;
    hist_std_amt = std;
    hist_min_amt = low;
    hist_max_amt = high;
    time_since_prev_txn = since;
    amt_to_hist_mean_ratio = div amount (without_zero mean);
    amt_diff_from_hist_mean = sub amount mean;
    amt_zscore = div (sub amount mean) (without_zero std);
  }

  unfoldable pub applied : {X Y : Type 0} → (X → Y) → X → Y
  applied f x = f x

  -- The frame `out`, column by column.
  unfoldable pub offline_columns : List (Row K I) → List Offline
  unfolding amounts grouped hist_mean hist_std offline_row applied zip_with
  offline_columns d =
      let amt = amounts d in
      let times = map (λ r. r.time) d in
      let previous = shift (grouped d amt) in
      let since = zip_with sub times (shift (grouped d times)) in
      let counted = zip_with offline_row (cumcount (grouped d amt)) amt in
      let averaged = zip_with applied (zip_with applied counted (hist_mean d)) (hist_std d) in
      zip_with applied
        (zip_with applied (zip_with applied averaged (cummin (grouped d previous)))
          (cummax (grouped d previous)))
        since

  unfoldable pub or_merge_error : {X : Type 0} → Option X → Result OfflineError X
  or_merge_error none = err merge_error
  or_merge_error (some x) = ok x

  unfoldable pub compute_behavioral_features :
      Frame K I → Result OfflineError (List (I × (Offline × Velocity)))
  unfolding admitted_columns zip_with pair or_merge_error
  compute_behavioral_features df = do
    admitted_columns df.columns
    let d = sort_values df.rows
    let out = zip_with pair (map (λ r. r.transaction_id) d) (offline_columns d)
    or_merge_error (merge out (compute_velocity_counts d))
