-- ===== src/Features/Behavioral/Output.antt =====
-- The row of a transaction in the frame that `compute_behavioral_features` returns
-- (src/features/behavioral.py).
use real_time_risk_fraud_eng.Prelude.{
  ◌<◌, ◌≡◌, ◌∙◌, false, some, List, ◌∷◌, ◌++◌, map, arith, length, All,
}
use real_time_risk_fraud_eng.Prelude.Keys.{Hashable}
use real_time_risk_fraud_eng.Prelude.Lists.{length-map, length-append}
use real_time_risk_fraud_eng.Float.{Float, nan, is_nan, min, max, Arithmetic}
use real_time_risk_fraud_eng.Features.Columns.{
  Keyed, get_elem?, zip_with, pair, scan, length-scan, get_elem?-zip_with, get_elem?-map,
  length-zip_with, get_elem?_exists, get_elem?-append_length,
}
use real_time_risk_fraud_eng.Features.Behavioral.{
  Row, Pandas, offline_row, offline_columns, hist_mean, hist_std, valid_prior, sum_prior, grouped,
  amounts,
}
use real_time_risk_fraud_eng.Features.Behavioral.Groups.{
  IsPandas, those, keyed, grouped-map, scan_row, best, last_from,
}
use real_time_risk_fraud_eng.Features.Behavioral.Extremes.{extreme_row}

module _ {K I : Type 0} ⦃e : Hashable K⦄ ⦃e' : Hashable I⦄ (A : Arithmetic) (P : Pandas K I)
    (p : IsPandas P) where
  length-grouped :
      (d : List (Row K I)) (column : List Float)
      → length column ≡ length d
      → length (grouped A P d column) ≡ length d
  unfolding grouped
  length-grouped d column h =
      length-zip_with pair (length d) (map (λ r. r.entity) d) column (length-map _ d) h

  length-amounts : (d : List (Row K I)) → length (amounts A P d) ≡ length d
  unfolding amounts
  length-amounts d = length-map _ d

  length-summed :
      (d : List (Row K I)) (column : List Float)
      → length column ≡ length d
      → length (P.cumsum (grouped A P d column)) ≡ length d
  length-summed d column h = p.cumsum_length (grouped A P d column) ∙ length-grouped d column h

  length-valid_prior : (d : List (Row K I)) → length (valid_prior A P d) ≡ length d
  unfolding valid_prior
  length-valid_prior d =
      let there = length-map _ (amounts A P d) ∙ length-amounts d in
      length-zip_with A.sub (length d) _ _ (length-summed d _ there) there

  length-sum_prior :
      (d : List (Row K I)) (column : List Float)
      → length column ≡ length d
      → length (sum_prior A P d column) ≡ length d
  unfolding sum_prior
  length-sum_prior d column h =
      length-zip_with A.sub (length d) _ _ (length-summed d column h) (length-map _ column ∙ h)

  length-hist_mean : (d : List (Row K I)) → length (hist_mean A P d) ≡ length d
  unfolding hist_mean
  length-hist_mean d =
      length-zip_with A.div (length d) _ _ (length-sum_prior d _ (length-amounts d))
        (length-map _ (valid_prior A P d) ∙ length-valid_prior d)

  length-hist_std : (d : List (Row K I)) → length (hist_std A P d) ≡ length d
  unfolding hist_std
  length-hist_std d =
      let n = length d in
      let valid = length-valid_prior d in
      let sums = length-sum_prior d _ (length-map _ (amounts A P d) ∙ length-amounts d) in
      let squares = length-map _ (hist_mean A P d) ∙ length-hist_mean d in
      let numerator =
        length-zip_with A.sub n _ _ sums (length-zip_with A.mul n _ _ valid squares) in
      let minus1 = length-map _ _ ∙ length-map _ (valid_prior A P d) ∙ valid in
      length-map _ _ ∙ length-map _ _ ∙ length-zip_with A.div n _ _ numerator minus1

  grouped-amounts : (d : List (Row K I)) → grouped A P d (amounts A P d) ≡ keyed (λ r. r.amount) d
  unfolding grouped amounts
  grouped-amounts d = grouped-map (λ r. r.amount) d

  grouped-times : (d : List (Row K I)) → grouped A P d (map (λ r. r.time) d) ≡ keyed (λ r. r.time) d
  unfolding grouped
  grouped-times d = grouped-map (λ r. r.time) d

  length-cumcount : (c : Keyed K Float) → length (P.cumcount c) ≡ length c
  length-cumcount c = rw (p.cumcount_lem c) (length-scan _ c)

  length-shift : (c : Keyed K Float) → length (P.shift c) ≡ length c
  length-shift c = rw (p.shift_lem c) (length-scan _ c)

  length-cummin : (c : Keyed K Float) → length (P.cummin c) ≡ length c
  length-cummin c = rw (p.cummin_lem c) (length-scan _ c)

  length-cummax : (c : Keyed K Float) → length (P.cummax c) ≡ length c
  length-cummax c = rw (p.cummax_lem c) (length-scan _ c)

  pub length-offline_columns : (d : List (Row K I)) → length (offline_columns A P d) ≡ length d
  unfolding offline_columns
  length-offline_columns d =
      let n = length d in
      let by_entity = length-grouped d _ (length-amounts d) in
      let previous = length-grouped d _ (length-shift _ ∙ by_entity) in
      let since =
        length-zip_with A.sub n _ _ (length-map _ d)
          (length-shift _ ∙ length-grouped d _ (length-map _ d)) in
      let counted = length-zip_with _ n _ _ (length-cumcount _ ∙ by_entity) (length-amounts d) in
      let averaged =
        length-zip_with _ n _ _ (length-zip_with _ n _ _ counted (length-hist_mean d))
          (length-hist_std d) in
      length-zip_with _ n _ _
        (length-zip_with _ n _ _ (length-zip_with _ n _ _ averaged (length-cummin _ ∙ previous))
          (length-cummax _ ∙ previous))
        since

  module _ (pre : List (Row K I)) (r : Row K I) (post : List (Row K I)) where
    abbrev d : List (Row K I)
    d = pre ++ r ∷ post

    in_range : length pre < length d
    in_range = omega (arith, length-append pre (r ∷ post))

    count_at :
        get_elem? (P.cumcount (grouped A P d (amounts A P d))) (length pre)
        ≡ some (length (those r.entity pre))
    count_at =
        rw
          (
            grouped-amounts d,
            p.cumcount_lem (keyed (λ r. r.amount) d),
            ← length-map (λ (q : Row K I). q.amount) (those r.entity pre),
          )
          (scan_row (λ seen x. length seen) (λ r. r.amount) pre r post)

    since_at :
        get_elem?
          (zip_with A.sub (map (λ r. r.time) d) (P.shift (grouped A P d (map (λ r. r.time) d))))
          (length pre)
        ≡ some (A.sub r.time (last_from nan (map (λ q. q.time) (those r.entity pre))))
    since_at =
        get_elem?-zip_with A.sub _ _ (length pre) r.time _
          (get_elem?-map (λ (q : Row K I). q.time) d (length pre) r
            (get_elem?-append_length pre r post))
          (rw (grouped-times d, p.shift_lem (keyed (λ r. r.time) d))
            (scan_row (λ seen x. last_from nan seen) (λ r. r.time) pre r post))

    module _
        (numbers : All (λ x. is_nan x ≡ false) (map (λ q. q.amount) (those r.entity pre))) where
      low_at :
          get_elem?
            (P.cummin (grouped A P d (P.shift (grouped A P d (amounts A P d)))))
            (length pre)
          ≡ some (best min nan (map (λ q. q.amount) (those r.entity pre)))
      unfolding grouped
      low_at =
          rw
            (
              grouped-amounts d,
              p.shift_lem (keyed (λ r. r.amount) d),
              p.cummin_lem (
                  zip_with pair (map (λ r. r.entity) d)
                    (scan (λ seen x. last_from nan seen) (keyed (λ r. r.amount) d))),
            )
            (extreme_row (λ r. r.amount) min pre r post numbers)

      high_at :
          get_elem?
            (P.cummax (grouped A P d (P.shift (grouped A P d (amounts A P d)))))
            (length pre)
          ≡ some (best max nan (map (λ q. q.amount) (those r.entity pre)))
      unfolding grouped
      high_at =
          rw
            (
              grouped-amounts d,
              p.shift_lem (keyed (λ r. r.amount) d),
              p.cummax_lem (
                  zip_with pair (map (λ r. r.entity) d)
                    (scan (λ seen x. last_from nan seen) (keyed (λ r. r.amount) d))),
            )
            (extreme_row (λ r. r.amount) max pre r post numbers)

      pub offline_columns_at :
          (mean std : Float) × (get_elem? (offline_columns A P d) (length pre)
            ≡ some (
                offline_row A P
                  (length (those r.entity pre))
                  r.amount
                  mean
                  std
                  (best min nan (map (λ q. q.amount) (those r.entity pre)))
                  (best max nan (map (λ q. q.amount) (those r.entity pre)))
                  (A.sub r.time (last_from nan (map (λ q. q.time) (those r.entity pre))))))
      unfolding offline_columns amounts
      offline_columns_at =
          let i = length pre in
          let (mean, mean_there) =
            get_elem?_exists (hist_mean A P d) i (omega (arith, in_range, length-hist_mean d)) in
          let (std, std_there) =
            get_elem?_exists (hist_std A P d) i (omega (arith, in_range, length-hist_std d)) in
          let amount_there =
            get_elem?-map (λ (q : Row K I). q.amount) d i r (get_elem?-append_length pre r post) in
          let counted = get_elem?-zip_with (offline_row A P) _ _ i _ _ count_at amount_there in
          let averaged =
            get_elem?-zip_with _ _ _ i _ _ (get_elem?-zip_with _ _ _ i _ _ counted mean_there)
              std_there in
          (
            mean,
            std,
            get_elem?-zip_with _ _ _ i _ _
                (get_elem?-zip_with _ _ _ i _ _ (get_elem?-zip_with _ _ _ i _ _ averaged low_at)
                  high_at)
                since_at,
          )
