-- ===== src/Features/Behavioral/Windows.antt =====
-- The velocity counts of `_compute_velocity_counts` (src/features/behavioral.py): at a row, the number of
-- earlier rows of its entity within the window.
use real_time_risk_fraud_eng.Prelude.{
  ℕ, ◌+◌, ◌≡◌, refl, ap, ◌∙◌, true, false, some, List, [], ◌∷◌, ◌++◌, map, arith, length, count,
  All, Bool-cases, inl, inr,
}
use real_time_risk_fraud_eng.Prelude.Int.{ℤ, sub_ℕ, pos}
use real_time_risk_fraud_eng.Prelude.Keys.{Hashable, ◌==◌, int_key}
use real_time_risk_fraud_eng.Prelude.Distinct.{elem, Distinct}
use real_time_risk_fraud_eng.Float.{Float, le, Arithmetic}
use real_time_risk_fraud_eng.Float.Order.{not_nan_of_le_left}
use real_time_risk_fraud_eng.State.Entity.{cutoff}
use real_time_risk_fraud_eng.State.Entity.Velocity.{Ascending, IsMonotone}
use real_time_risk_fraud_eng.Features.Behavioral.Before.{Ascending-split, prior_count}
use real_time_risk_fraud_eng.Prelude.Lists.{map-append, length-map}
use real_time_risk_fraud_eng.Features.Columns.{get_elem?}
use real_time_risk_fraud_eng.Features.Behavioral.{
  Row, Pandas, scatter, gather, prior_in_window, window_counts, window_column, zeros,
}
use real_time_risk_fraud_eng.Features.Behavioral.Groups.{
  IsPandas, positions_from, those, those-split,
}
use real_time_risk_fraud_eng.Features.Behavioral.Scatter.{
  scatter_other, scatter_at, own_position, other_position, length-positions, gather-positions,
  length-scatter, length-zeros, zeros_at, prior_in_window_at,
}

All-middle :
    {X Y : Type 0} (Q : Y → Type 0) (f : X → Y) (xs : List X) (y : X) (ys : List X)
    → All Q (map f (xs ++ y ∷ ys))
    → Q (f y)
All-middle Q f [] y ys h = h.0
All-middle Q f (x ∷ xs) y ys h = All-middle Q f xs y ys h.1

module _ {K I : Type 0} (A : Arithmetic) (P : Pandas K I) (seconds : ℕ) where
  length-window_counts :
      (ts : List Float) (groups : List (K × List ℕ)) (c : List ℤ)
      → length (window_counts A P seconds ts groups c) ≡ length c
  unfolding window_counts
  length-window_counts ts [] c = refl
  length-window_counts ts ((k, ps) ∷ groups) c =
      length-window_counts ts groups _ ∙ length-scatter ps _ c

  pub length-window_column :
      ⦃e : Hashable K⦄ ⦃e' : Hashable I⦄ (d : List (Row K I))
      → length (window_column A P seconds d) ≡ length d
  unfolding window_column
  length-window_column d =
      length-window_counts (map (λ r. r.time) d) (P.indices (map (λ r. r.entity) d)) (zeros d)
      ∙ length-zeros d

module _ {K I : Type 0} ⦃e : Hashable K⦄ ⦃e' : Hashable I⦄ (A : Arithmetic) (P : Pandas K I)
    (seconds : ℕ) (pre : List (Row K I)) (r : Row K I) (post : List (Row K I)) where
  abbrev d : List (Row K I)
  d = pre ++ r ∷ post

  abbrev keys : List K
  keys = map (λ q. q.entity) d

  abbrev times : List Float
  times = map (λ q. q.time) d

  abbrev names : List (K × List ℕ) → List K
  names groups = map (λ g. g.0) groups

  -- The value that the group of the row writes for it.
  abbrev value : ℤ
  value =
      sub_ℕ (length (those r.entity pre))
        (P.searchsorted (map (λ q. q.time) (those r.entity d)) (cutoff A seconds r.time))

  keys-split : keys ≡ map (λ q. q.entity) pre ++ r.entity ∷ map (λ q. q.entity) post
  keys-split = map-append (λ (q : Row K I). q.entity) pre (r ∷ post)

  times-split :
      map (λ q. q.time) (those r.entity d)
      ≡ map (λ q. q.time) (those r.entity pre) ++ r.time ∷ map (λ q. q.time) (those r.entity post)
  times-split =
      rw (those-split pre r post)
        (map-append (λ (q : Row K I). q.time) (those r.entity pre) (r ∷ those r.entity post))

  gathered : gather times (positions_from 0 r.entity keys) ≡ map (λ q. q.time) (those r.entity d)
  gathered = gather-positions [] r.entity d

  outside : (k : K) → (k == r.entity) ≡ false → elem (length pre) (positions_from 0 k keys) ≡ false
  outside k h =
      rw (keys-split, ← length-map (λ (q : Row K I). q.entity) pre)
        (other_position k r.entity (map (λ q. q.entity) pre) (map (λ q. q.entity) post)
          (ground (arith, h, e.equal_iff k r.entity, e.equal_iff r.entity k)))

  untouched :
      (k : K) (vs c : List ℤ) (w : ℤ)
      → (k == r.entity) ≡ false
      → get_elem? c (length pre) ≡ some w
      → get_elem? (scatter (positions_from 0 k keys) vs c) (length pre) ≡ some w
  untouched k vs c w h there =
      scatter_other (length pre) (positions_from 0 k keys) vs c w (outside k h) there

  -- The positions of the entity before the row, and after it.
  abbrev earlier : List ℕ
  earlier = positions_from 0 r.entity (map (λ q. q.entity) pre)

  abbrev later : List ℕ
  later = positions_from (length pre + 1) r.entity (map (λ q. q.entity) post)

  own :
      (positions_from 0 r.entity keys ≡ earlier ++ length pre ∷ later)
      × (elem (length pre) later ≡ false)
  own =
      rw (keys-split, ← length-map (λ (q : Row K I). q.entity) pre)
        (own_position r.entity (map (λ q. q.entity) pre) (map (λ q. q.entity) post))

  value_at :
      get_elem?
        (prior_in_window A P seconds
          (map (λ q. q.time) (those r.entity d))
          0
          (map (λ q. q.time) (those r.entity d)))
        (length earlier)
      ≡ some value
  unfolding cutoff
  value_at =
      let all = map (λ (q : Row K I). q.time) (those r.entity d) in
      let before = map (λ (q : Row K I). q.time) (those r.entity pre) in
      let as_many = length-map (λ (q : Row K I). q.time) (those r.entity pre) in
      rw (length-positions 0 r.entity pre, ← as_many)
        (ap (λ l. get_elem? (prior_in_window A P seconds all 0 l) (length before)) times-split
          ∙ prior_in_window_at A P seconds all 0 before r.time
              (map (λ (q : Row K I). q.time) (those r.entity post))
          ∙ ap (λ n. some (sub_ℕ n (P.searchsorted all (cutoff A seconds r.time)))) (omega arith))

  written :
      (c : List ℤ) (w : ℤ)
      → get_elem? c (length pre) ≡ some w
      → get_elem?
          (scatter
            (positions_from 0 r.entity keys)
            (prior_in_window A P seconds
              (gather times (positions_from 0 r.entity keys))
              0
              (gather times (positions_from 0 r.entity keys)))
            c)
          (length pre)
        ≡ some value
  written c w there =
      rw (gathered, own.0) (scatter_at earlier (length pre) later _ c value w own.1 value_at there)

  other_groups :
      (groups : List (K × List ℕ)) (c : List ℤ) (w : ℤ)
      → elem r.entity (names groups) ≡ false
      → All (λ g. g.1 ≡ positions_from 0 g.0 keys) groups
      → get_elem? c (length pre) ≡ some w
      → get_elem? (window_counts A P seconds times groups c) (length pre) ≡ some w
  unfolding window_counts
  other_groups [] c w h k there = there
  other_groups ((j, ps) ∷ groups) c w h k there = elim (Bool-cases (j == r.entity)) [
    | inl same ↦ ground (arith, same)
    | inr differs ↦ other_groups groups _ w (ground arith) k.1 (
        rw k.0 (
          untouched j
            (prior_in_window A P seconds (gather times (positions_from 0 j keys)) 0
              (gather times (positions_from 0 j keys)))
            c w differs there))
  ]

  all_groups :
      (groups : List (K × List ℕ)) (c : List ℤ) (w : ℤ)
      → elem r.entity (names groups) ≡ true
      → Distinct (names groups)
      → All (λ g. g.1 ≡ positions_from 0 g.0 keys) groups
      → get_elem? c (length pre) ≡ some w
      → get_elem? (window_counts A P seconds times groups c) (length pre) ≡ some value
  unfolding window_counts
  all_groups [] c w h u k there = ground arith
  all_groups ((j, ps) ∷ groups) c w h u k there = elim (Bool-cases (j == r.entity)) [
    | inl same ↦
        let eq = (e.equal_iff j r.entity).0 same in
        rw (k.0, eq) (other_groups groups _ value (rw eq at u.0) k.1 (written c w there))
    | inr differs ↦ all_groups groups _ w (ground arith) u.1 k.1 (
        rw k.0 (
          untouched j
            (prior_in_window A P seconds (gather times (positions_from 0 j keys)) 0
              (gather times (positions_from 0 j keys)))
            c w differs there))
  ]

  -- Over what pandas documents, on ascending times and with monotone subtraction.
  pub window_column_at :
      IsPandas P
      → IsMonotone A
      → Ascending (map (λ q. q.time) (those r.entity d))
      → get_elem? (window_column A P seconds d) (length pre)
        ≡ some (pos (count (le (cutoff A seconds r.time)) (map (λ q. q.time) (those r.entity pre))))
  unfolding window_column cutoff
  window_column_at p m a =
      let g = p.indices_lem keys in
      let before = map (λ (q : Row K I). q.time) (those r.entity pre) in
      let after = map (λ (q : Row K I). q.time) (those r.entity post) in
      let in_order = rw times-split at a in
      let number = (Ascending-split before r.time after in_order).1 in
      let early = rw (m.zero_seconds r.time) at (m.longer 0 seconds r.time (omega arith) number) in
      all_groups (P.indices keys) (zeros d) (pos 0)
        (All-middle (λ k. elem k (names (P.indices keys)) ≡ true) (λ (q : Row K I). q.entity) pre r
          post g.covers)
        g.once g.positions (zeros_at pre r post)
      ∙ ap some (
          rw
            (
              p.searchsorted_lem _ (cutoff A seconds r.time) a (not_nan_of_le_left _ r.time early),
              times-split,
              ← length-map (λ (q : Row K I). q.time) (those r.entity pre),
            )
            (prior_count (cutoff A seconds r.time) r.time before after in_order early))
