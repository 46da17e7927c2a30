-- ===== src/Features/Behavioral/Sample.antt =====
-- Operations that behave as pandas documents, for tests.
use real_time_risk_fraud_eng.Prelude.{
  ℕ, ◌≡◌, refl, ap, Bool, true, false, some, List, [], ◌∷◌, map, arith, length, count, All,
  if◌then◌else◌, Bool-cases, inl, inr,
}
use real_time_risk_fraud_eng.Prelude.Keys.{Hashable, equal_refl}
use real_time_risk_fraud_eng.Prelude.Distinct.{elem, Distinct}
use real_time_risk_fraud_eng.Float.{Float, nan, is_nan, le, lt, min, max}
use real_time_risk_fraud_eng.Float.Order.{le_trans, lt-eq-not-le, lt→le}
use real_time_risk_fraud_eng.State.Entity.Velocity.{Ascending}
use real_time_risk_fraud_eng.Features.Columns.{zip_with, pair, scan, length-scan}
use real_time_risk_fraud_eng.Features.Behavioral.{Row, Pandas, Offline, Velocity}
use real_time_risk_fraud_eng.Features.Behavioral.Groups.{
  IsGroups, IsPandas, positions_from, last_from, running,
}

All-from :
    (x y : Float) (ts : List Float)
    → le x y ≡ true
    → All (λ t. le y t ≡ true) ts
    → All (λ t. le x t ≡ true) ts
All-from x y [] h k = tt
All-from x y (t ∷ ts) h k = (le_trans x y t h k.0, All-from x y ts h k.1)

module _ {K I : Type 0} where
  unfoldable insert_row : Row K I → List (Row K I) → List (Row K I)
  insert_row r [] = r ∷ []
  insert_row r (q ∷ rows) = if le r.time q.time then r ∷ q ∷ rows else q ∷ insert_row r rows

  unfoldable pub sort_rows : List (Row K I) → List (Row K I)
  unfolding insert_row
  sort_rows [] = []
  sort_rows (r ∷ rows) = insert_row r (sort_rows rows)

  All-insert_row :
      (x : Float) (r : Row K I) (rows : List (Row K I))
      → le x r.time ≡ true
      → All (λ t. le x t ≡ true) (map (λ q. q.time) rows)
      → All (λ t. le x t ≡ true) (map (λ q. q.time) (insert_row r rows))
  unfolding insert_row
  All-insert_row x r [] h k = (h, tt)
  All-insert_row x r (q ∷ rows) h k = ground (arith, All-insert_row x r rows h k.1)

  Ascending-insert_row :
      (r : Row K I) (rows : List (Row K I))
      → is_nan r.time ≡ false
      → Ascending (map (λ q. q.time) rows)
      → Ascending (map (λ q. q.time) (insert_row r rows))
  unfolding insert_row
  Ascending-insert_row r [] h a = (h, tt, tt)
  Ascending-insert_row r (q ∷ rows) h a = elim (Bool-cases (le r.time q.time)) [
    | inl first ↦ rw first (h, (first, All-from r.time q.time _ first a.1), a)
    | inr later ↦
        let after = lt→le q.time r.time (ground (arith, lt-eq-not-le q.time r.time a.0 h, later)) in
        rw later (a.0, All-insert_row q.time r rows after a.1, Ascending-insert_row r rows h a.2)
  ]

  Ascending-sort_rows :
      (rows : List (Row K I))
      → All (λ r. is_nan r.time ≡ false) rows
      → Ascending (map (λ r. r.time) (sort_rows rows))
  unfolding sort_rows
  Ascending-sort_rows [] h = tt
  Ascending-sort_rows (r ∷ rows) h =
      Ascending-insert_row r (sort_rows rows) h.0 (Ascending-sort_rows rows h.1)

module _ {I : Type 0} where
  unfoldable pub joined : List (I × Offline) → List (I × Velocity) → List (I × (Offline × Velocity))
  joined [] ys = []
  joined (x ∷ xs) [] = []
  joined (x ∷ xs) (y ∷ ys) = (x.0, (x.1, y.1)) ∷ joined xs ys

  joined-zip :
      (ids : List I) (xs : List Offline) (ys : List Velocity)
      → length xs ≡ length ids
      → length ys ≡ length ids
      → joined (zip_with pair ids xs) (zip_with pair ids ys)
        ≡ zip_with pair ids (zip_with pair xs ys)
  unfolding joined zip_with pair
  joined-zip [] xs ys h k = refl
  joined-zip (i ∷ ids) [] ys h k = ground (arith, h)
  joined-zip (i ∷ ids) (x ∷ xs) [] h k = ground (arith, k)
  joined-zip (i ∷ ids) (x ∷ xs) (y ∷ ys) h k =
      ap (λ l. (i, (x, y)) ∷ l) (joined-zip ids xs ys (omega (arith, h)) (omega (arith, k)))

module _ {K : Type 0} ⦃e : Hashable K⦄ where
  unfoldable once_each : List K → List K
  once_each [] = []
  once_each (k ∷ ks) = if elem k (once_each ks) then once_each ks else k ∷ once_each ks

  Distinct-once_each : (ks : List K) → Distinct (once_each ks)
  unfolding once_each
  Distinct-once_each [] = tt
  Distinct-once_each (k ∷ ks) = ground (arith, Distinct-once_each ks)

  weaker :
      (i : K) (ks js : List K)
      → All (λ j. elem j js ≡ true) ks
      → All (λ j. elem j (i ∷ js) ≡ true) ks
  weaker i [] js h = tt
  weaker i (k ∷ ks) js h = ground (arith, weaker i ks js h.1)

  covered_if :
      (b : Bool) (k : K) (ks js : List K)
      → elem k js ≡ b
      → All (λ j. elem j js ≡ true) ks
      → (elem k (if b then js else k ∷ js) ≡ true)
        × All (λ j. elem j (if b then js else k ∷ js) ≡ true) ks
  covered_if true k ks js h c = (h, c)
  covered_if false k ks js h c = (rw (equal_refl k) refl, weaker k ks js c)

  covered : (ks : List K) → All (λ k. elem k (once_each ks) ≡ true) ks
  unfolding once_each
  covered [] = tt
  covered (k ∷ ks) = covered_if (elem k (once_each ks)) k ks (once_each ks) refl (covered ks)

  unfoldable pub groups_of : List K → List (K × List ℕ)
  unfolding once_each positions_from
  groups_of keys = map (λ k. (k, positions_from 0 k keys)) (once_each keys)

  names_of :
      (keys ks : List K)
      → map (λ (g : K × List ℕ). g.0) (map (λ k. (k, positions_from 0 k keys)) ks) ≡ ks
  names_of keys [] = refl
  names_of keys (k ∷ ks) = ap (λ l. k ∷ l) (names_of keys ks)

  positions_of :
      (keys ks : List K)
      → All
          (λ (g : K × List ℕ). g.1 ≡ positions_from 0 g.0 keys)
          (map (λ k. (k, positions_from 0 k keys)) ks)
  positions_of keys [] = tt
  positions_of keys (k ∷ ks) = (refl, positions_of keys ks)

  groups_of-IsGroups : (keys : List K) → IsGroups keys (groups_of keys)
  unfolding groups_of
  groups_of-IsGroups keys = record {
    once = rw (names_of keys (once_each keys)) (Distinct-once_each keys);
    covers = rw (names_of keys (once_each keys)) (covered keys);
    positions = positions_of keys (once_each keys);
  }

module _ {K I : Type 0} ⦃e : Hashable K⦄ ⦃e' : Hashable I⦄ where
  abbrev pub sample_pandas : Pandas K I
  sample_pandas = record {
    sort_values = sort_rows;
    cumcount = scan (λ seen x. length seen);
    cumsum = scan (λ seen x. x);
    shift = scan (λ seen x. last_from nan seen);
    cummin = scan (running min);
    cummax = scan (running max);
    indices = groups_of;
    searchsorted = λ ts x. count (λ t. lt t x) ts;
    merge = λ xs ys. some (joined xs ys);
  }

  pub sample_pandas-IsPandas : IsPandas sample_pandas
  sample_pandas-IsPandas = record {
    sorted = Ascending-sort_rows;
    cumcount_lem = λ d. refl;
    cumsum_length = λ d. length-scan (λ seen x. x) d;
    shift_lem = λ d. refl;
    cummin_lem = λ d. refl;
    cummax_lem = λ d. refl;
    indices_lem = groups_of-IsGroups;
    searchsorted_lem = λ ts x a h. refl;
    merge_lem = λ ids xs ys distinct h k. ap some (joined-zip ids xs ys h k);
  }
