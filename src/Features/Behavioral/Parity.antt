-- ===== src/Features/Behavioral/Parity.antt =====
-- The offline features (src/features/behavioral.py) against those that the engine computes online from the
-- entity's state (src/engine/state.py): counts, extremes, the elapsed time and the velocity counts are the
-- same. The mean and the deviation are computed by other formulas, which round differently.
use real_time_risk_fraud_eng.Prelude.{
  ℕ, suc, ◌≡◌, refl, ap, ◌∙◌, sym, false, some, List, [], ◌∷◌, ◌++◌, map, arith, length, count, All,
  eqb,
}
use real_time_risk_fraud_eng.Prelude.Int.{pos}
use real_time_risk_fraud_eng.Prelude.Keys.{Hashable}
use real_time_risk_fraud_eng.Prelude.Distinct.{Distinct}
use real_time_risk_fraud_eng.Result.{ok}
use real_time_risk_fraud_eng.Float.{Float, nan, is_nan, le, min, max, Arithmetic}
use real_time_risk_fraud_eng.State.Entity.{
  Features, features_of, features_from, history, velocity_counts, cutoff, float_of, hour_seconds,
  day_seconds, EntityState, History, fresh, no_history, history_of, or_nan, elapsed,
}
use real_time_risk_fraud_eng.State.Entity.Velocity.{
  Ascending, IsMonotone, velocity_counts-eq-count, day_mono,
}
use real_time_risk_fraud_eng.Float.Order.{not_nan_of_le_right}
use real_time_risk_fraud_eng.Prelude.Lists.{length-map}
use real_time_risk_fraud_eng.Features.Columns.{
  get_elem?, zip_with, pair, get_elem?-zip_with, get_elem?-map, length-zip_with,
  get_elem?-append_length,
}
use real_time_risk_fraud_eng.Features.Behavioral.{
  Row, Frame, Pandas, Offline, Velocity, offline_row, offline_columns, compute_velocity_counts,
  compute_behavioral_features, admitted_columns, velocity_row, window_column,
}
use real_time_risk_fraud_eng.Features.Behavioral.Groups.{
  IsPandas, those, those-split, Ascending-those, best, last_from,
}
use real_time_risk_fraud_eng.Features.Behavioral.Output.{length-offline_columns, offline_columns_at}
use real_time_risk_fraud_eng.Features.Behavioral.Recall.{
  recall, found_after, found_after-IsRecalled,
}
use real_time_risk_fraud_eng.Features.Behavioral.Windows.{length-window_column, window_column_at}

-- An offline row and the online features agree in the seven features that are not computed from the mean
-- of the earlier amounts: the count and its logarithm, the least and the greatest amount, the elapsed time
-- and the two velocity counts.
pub record AgreesOffMean (o : Offline) (v : Velocity) (f : Features) : Type 0 where
  pub count_same : o.prev_txn_count ≡ f.prev_txn_count
  pub log_same : o.prev_txn_count_log1p ≡ f.prev_txn_count_log1p
  pub low_same : o.hist_min_amt ≡ f.hist_min_amt
  pub high_same : o.hist_max_amt ≡ f.hist_max_amt
  pub since_same : o.time_since_prev_txn ≡ f.time_since_prev_txn
  pub hour_same : (n : ℕ) × (v.hour ≡ pos n) × (f.prior_count_1h ≡ float_of n)
  pub day_same : (n : ℕ) × (v.day ≡ pos n) × (f.prior_count_24h ≡ float_of n)

module _ {K I : Type 0} (A : Arithmetic) (P : Pandas K I) (m : IsMonotone A)
    (no_number : (x : Float) → A.sub x nan ≡ nan) where
  abbrev times : List (Row K I) → List Float
  times rows = map (λ r. r.time) rows

  abbrev values : List (Row K I) → List Float
  values rows = map (λ r. r.amount) rows

  -- The row for an entity with the earlier rows `rows`.
  abbrev row_of : List (Row K I) → Row K I → Float → Float → Offline
  row_of rows r mean std =
      offline_row A P (length rows) r.amount mean std (best min nan (values rows))
        (best max nan (values rows)) (A.sub r.time (last_from nan (times rows)))

  abbrev velocity_of : List (Row K I) → Row K I → Velocity
  velocity_of rows r = record {
    hour = pos (count (le (cutoff A hour_seconds r.time)) (times rows));
    day = pos (count (le (cutoff A day_seconds r.time)) (times rows));
  }

  -- The history that the features are computed from, for a state of some rows.
  record IsKnown (n : ℕ) (s : EntityState) (now : Float) (h : History) : Type 0 where
    prev_count : h.prev_count ≡ n
    low : h.low ≡ or_nan s.min_amt
    high : h.high ≡ or_nan s.max_amt
    since : h.since ≡ elapsed A now s.last_time

  history-IsKnown :
      (n : ℕ) (s : EntityState) (now : Float)
      → s.tally ≡ suc n
      → IsKnown (suc n) s now (history A now (some s))
  unfolding history history_of
  history-IsKnown n s now h =
      let positive : eqb s.tally 0 ≡ false = ground (arith, h) in
      record {
        prev_count = rw positive h;
        low = rw positive refl;
        high = rw positive refl;
        since = rw positive refl;
      }

  row_of-AgreesOffMean :
      (rows : List (Row K I)) (r : Row K I) (later : List (Row K I)) (mean std : Float)
      → Ascending (times (rows ++ r ∷ later))
      → All (λ x. is_nan x ≡ false) (values rows)
      → AgreesOffMean
          (row_of rows r mean std)
          (velocity_of rows r)
          (features_of A r.time r.amount (found_after A rows))
  unfolding features_of features_from history velocity_counts found_after offline_row best last_from
      count no_history
  row_of-AgreesOffMean [] r later mean std a h = record {
    count_same = refl;
    log_same = refl;
    low_same = refl;
    high_same = refl;
    since_same = no_number r.time;
    hour_same = (0, refl, refl);
    day_same = (0, refl, refl);
  }
  row_of-AgreesOffMean (q ∷ rows) r later mean std a h =
      let (clock, early, w) = found_after-IsRecalled A m q rows r later a h in
      let s = recall A fresh (q ∷ rows) in
      let known = history-IsKnown (length rows) s r.time w.tally in
      let counts =
        velocity_counts-eq-count A m (times (q ∷ rows)) (cutoff A day_seconds clock) r.time
          s.recent_times (not_nan_of_le_right clock r.time early) (day_mono A m clock r.time early)
          w.window in
      record {
        count_same = ap float_of (sym known.prev_count);
        log_same = ap (λ n. A.log1p (float_of n)) (sym known.prev_count);
        low_same = sym (known.low ∙ rw w.low (unfold or_nan in refl));
        high_same = sym (known.high ∙ rw w.high (unfold or_nan in refl));
        since_same = sym (known.since ∙ rw (w.last, w.last_row) (unfold elapsed in refl));
        hour_same = (
          count (le (cutoff A hour_seconds r.time)) (times (q ∷ rows)),
          refl,
          ap (λ (c : ℕ × ℕ × List Float). float_of c.0) counts,
        );
        day_same = (
          count (le (cutoff A day_seconds r.time)) (times (q ∷ rows)),
          refl,
          ap (λ (c : ℕ × ℕ × List Float). float_of c.1) counts,
        );
      }

module _ {K I : Type 0} ⦃e : Hashable K⦄ ⦃e' : Hashable I⦄ (A : Arithmetic) (P : Pandas K I)
    (p : IsPandas P) (m : IsMonotone A) (no_number : (x : Float) → A.sub x nan ≡ nan) where
  -- pandas as documented, monotone subtraction, a NaN where NaN is subtracted, distinct ids and times that
  -- are numbers: the computation returns. The row of a transaction whose entity's earlier amounts are
  -- numbers has the same count with its logarithm, the same least and greatest amount, the same elapsed time
  -- and the same velocity counts as the features that are computed from the state after the online updates
  -- for the earlier transactions of the entity, in the sorted order. The five features that are computed
  -- from the mean (mean, deviation, ratio, difference and z-score) are not compared.
  pub compute_behavioral_features-AgreesOffMean :
      (df : Frame K I) (pre : List (Row K I)) (r : Row K I) (post : List (Row K I))
      → admitted_columns df.columns ≡ ok tt
      → All (λ q. is_nan q.time ≡ false) df.rows
      → P.sort_values df.rows ≡ pre ++ r ∷ post
      → Distinct (map (λ q. q.transaction_id) (pre ++ r ∷ post))
      → All (λ x. is_nan x ≡ false) (map (λ q. q.amount) (those r.entity pre))
      → (out : List (I × (Offline × Velocity))) × (o : Offline) × (v : Velocity)
        × (compute_behavioral_features A P df ≡ ok out)
        × (get_elem? out (length pre) ≡ some (r.transaction_id, (o, v)))
        × AgreesOffMean o v (features_of A r.time r.amount (found_after A (those r.entity pre)))
  unfolding compute_behavioral_features compute_velocity_counts pair velocity_row
  compute_behavioral_features-AgreesOffMean df pre r post admitted times_ok sorted distinct
        numbers =
      let d = pre ++ r ∷ post in
      let n = length d in
      let i = length pre in
      let in_order = rw sorted at (p.sorted df.rows times_ok) in
      let own = Ascending-those r.entity d in_order in
      let (mean, std, offline_there) = offline_columns_at A P p pre r post numbers in
      let hour_there = window_column_at A P hour_seconds pre r post p m own in
      let day_there = window_column_at A P day_seconds pre r post p m own in
      let both =
        zip_with velocity_row (window_column A P hour_seconds d)
          (window_column A P day_seconds d) in
      let velocity_there = get_elem?-zip_with _ _ _ i _ _ hour_there day_there in
      let id_there =
        get_elem?-map (λ (q : Row K I). q.transaction_id) d i r
          (get_elem?-append_length pre r post) in
      let ids = length-map (λ (q : Row K I). q.transaction_id) d in
      let velocities =
        length-zip_with _ n _ _ (length-window_column A P hour_seconds d)
          (length-window_column A P day_seconds d) in
      (
        zip_with pair (map (λ q. q.transaction_id) d) (zip_with pair (offline_columns A P d) both),
        row_of A P m no_number (those r.entity pre) r mean std,
        velocity_of A P m no_number (those r.entity pre) r,
        rw
            (
              admitted,
              sorted,
              p.merge_lem (map (λ q. q.transaction_id) d) (offline_columns A P d) both distinct
                  (length-offline_columns A P p d ∙ sym ids) (velocities ∙ sym ids),
            )
            refl,
        get_elem?-zip_with _ _ _ i _ _ id_there
            (get_elem?-zip_with _ _ _ i _ _ offline_there velocity_there),
        row_of-AgreesOffMean A P m no_number (those r.entity pre) r (those r.entity post) mean std
            (rw (← those-split pre r post) own) numbers,
      )
