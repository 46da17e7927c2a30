-- ===== src/State/Entity.antt =====
-- One entity's statistics (src/engine/state.py): `EntityState`, and what `compute_features`,
-- `_velocity_counts` and `update` do with the state of the entity that they are called for.
pub mod Velocity
use real_time_risk_fraud_eng.Prelude.{
  ℕ, zero, suc, ◌+◌, ◌-◌, Bool, true, false, not, ◌&&◌, ◌||◌, Option, none, some, List, [], ◌∷◌,
  ◌++◌, count, length, if◌then◌else◌, is_some, eqb, leb,
}
use real_time_risk_fraud_eng.Prelude.Int.{pos}
use real_time_risk_fraud_eng.Float.{
  Float, nan, lt, le, min, max, is_nan, exact, zero_float, Arithmetic,
}

-- `tally` is the source's `count`.
pub record EntityState : Type 0 where
  pub tally : ℕ
  pub mean_amt : Float
  pub m2 : Float
  pub min_amt : Option Float
  pub max_amt : Option Float
  pub last_time : Option Float
  pub recent_times : List Float

-- EntityState()
abbrev pub fresh : EntityState
fresh = record {
  tally = 0;
  mean_amt = zero_float;
  m2 = zero_float;
  min_amt = none;
  max_amt = none;
  last_time = none;
  recent_times = [];
}

abbrev pub hour_seconds : ℕ
hour_seconds = 3600

abbrev pub day_seconds : ℕ
day_seconds = 86400

-- while times and times[0] < cutoff: times.popleft()
unfoldable pub prune : Float → List Float → List Float
prune cutoff [] = []
prune cutoff (t ∷ ts) = if lt t cutoff then prune cutoff ts else t ∷ ts

-- x if m is None else pick(m, x)
unfoldable pub extreme : (Float → Float → Float) → Option Float → Float → Float
extreme pick none x = x
extreme pick (some m) x = pick m x

-- `bhv_*`, the dict that `compute_features` returns.
pub record Features : Type 0 where
  pub prev_txn_count : Float
  pub prev_txn_count_log1p : Float
  pub hist_mean_amt : Float
  pub hist_std_amt : Float
  pub hist_min_amt : Float
  pub hist_max_amt : Float
  pub time_since_prev_txn : Float
  pub amt_to_hist_mean_ratio : Float
  pub amt_diff_from_hist_mean : Float
  pub amt_zscore : Float
  pub prior_count_1h : Float
  pub prior_count_24h : Float

-- The local variables that the first branch of `compute_features` sets.
pub record History : Type 0 where
  pub prev_count : ℕ
  pub mean : Float
  pub std : Float
  pub low : Float
  pub high : Float
  pub since : Float

-- `float("nan") if x is None else x`
unfoldable pub or_nan : Option Float → Float
or_nan none = nan
or_nan (some x) = x

-- == on floats, for `x == x` and `x != 0`
unfoldable pub same : Float → Float → Bool
same x y = le x y && le y x

-- An `int` count or number of seconds as a float, which is exact below 2^53.
abbrev pub float_of : ℕ → Float
float_of n = exact (pos n)

module _ (A : Arithmetic) where
  open A use {sub, mul, div, sqrt, log1p, add}

  unfoldable pub cutoff : ℕ → Float → Float
  cutoff seconds now = sub now (float_of seconds)

  unfoldable pub no_history : History
  no_history = record { prev_count = 0; mean = nan; std = nan; low = nan; high = nan; since = nan }

  -- math.sqrt(max(variance, 0.0))
  deviation : EntityState → Float
  deviation s =
      if leb 2 s.tally then sqrt (max (div s.m2 (float_of (s.tally - 1))) zero_float) else nan

  unfoldable pub elapsed : Float → Option Float → Float
  elapsed now none = nan
  elapsed now (some t) = sub now t

  unfoldable pub history_of : Float → EntityState → History
  unfolding deviation elapsed no_history
  history_of now s = if eqb s.tally 0 then no_history else record {
    prev_count = s.tally;
    mean = s.mean_amt;
    std = deviation s;
    low = or_nan s.min_amt;
    high = or_nan s.max_amt;
    since = elapsed now s.last_time;
  }

  -- `if state is None or state.count == 0` … `else`
  unfoldable pub history : Float → Option EntityState → History
  unfolding history_of
  history now none = no_history
  history now (some s) = history_of now s

  -- x if (x == x and x != 0) else nan
  nonzero : Float → Float
  nonzero x = if same x x && not (same x zero_float) then x else nan

  -- `_velocity_counts`: the counts of the last hour and day, with the pruned times.
  unfoldable pub velocity_counts : Float → List Float → ℕ × ℕ × List Float
  velocity_counts now [] = (0, 0, [])
  velocity_counts now (t ∷ ts) =
      let kept = prune (cutoff day_seconds now) (t ∷ ts) in
      (count (λ x. le (cutoff hour_seconds now) x) kept, length kept, kept)

  unfoldable pub times_of : Option EntityState → List Float
  times_of none = []
  times_of (some s) = s.recent_times

  unfoldable pub features_from : Float → History → ℕ × ℕ × List Float → Features
  unfolding nonzero
  features_from amount h (hour, day, _) =
      let mean_safe = nonzero h.mean in
      let std_safe = nonzero h.std in
      record {
        prev_txn_count = float_of h.prev_count;
        prev_txn_count_log1p = log1p (float_of h.prev_count);
        hist_mean_amt = h.mean;
        hist_std_amt = h.std;
        hist_min_amt = h.low;
        hist_max_amt = h.high;
        time_since_prev_txn = h.since;
        amt_to_hist_mean_ratio = if same mean_safe mean_safe then div amount mean_safe else nan;
        amt_diff_from_hist_mean = if same h.mean h.mean then sub amount h.mean else nan;
        amt_zscore =
            if same std_safe std_safe && same h.mean h.mean
            then div (sub amount h.mean) std_safe
            else nan;
        prior_count_1h = float_of hour;
        prior_count_24h = float_of day;
      }

  -- The features of a transaction, from the state that was found (`none`: no state).
  unfoldable pub features_of : Float → Float → Option EntityState → Features
  unfolding times_of
  features_of now amount found =
      features_from amount (history now found) (velocity_counts now (times_of found))

  -- What `_velocity_counts` leaves in the state that it was given.
  unfoldable pub read_prune : Float → EntityState → EntityState
  read_prune now s = record s { recent_times = (velocity_counts now s.recent_times).2 }

  -- The state after `update`: Welford's step, the extremes, the time, and the pruned times.
  unfoldable pub updated : Float → Float → EntityState → EntityState
  updated now amount s =
      let n = s.tally + 1 in
      let delta = sub amount s.mean_amt in
      let mean = add s.mean_amt (div delta (float_of n)) in
      let delta2 = sub amount mean in
      record {
        tally = n;
        mean_amt = mean;
        m2 = add s.m2 (mul delta delta2);
        min_amt = some (extreme min s.min_amt amount);
        max_amt = some (extreme max s.max_amt amount);
        last_time = some now;
        recent_times = prune (cutoff day_seconds now) (s.recent_times ++ now ∷ []);
      }
