-- ===== src/Data/Split/Partition.antt =====
-- `compute_temporal_split` and `verify_split` (src/data/split.py) together: a split that is returned cuts
-- the sorted rows into three parts, and the independent verification accepts it.
use real_time_risk_fraud_eng.Prelude.{
  ℕ, ◌+◌, ◌<◌, ◌≡◌, refl, ap, ◌∙◌, sym, subst, true, false, not, List, [], ◌∷◌, ◌++◌, map, arith,
  length, eqb,
}
use mathlib.Core.List.{append_assoc}
use real_time_risk_fraud_eng.Prelude.Int.{ℤ, pos}
use real_time_risk_fraud_eng.Prelude.Keys.{Hashable}
use real_time_risk_fraud_eng.Prelude.Lists.{length-append, map-append}
use real_time_risk_fraud_eng.Prelude.Distinct.{Distinct}
use real_time_risk_fraud_eng.Result.{ok, bind_ok, raise_if}
use real_time_risk_fraud_eng.Float.{Float, Arithmetic, one_float}
use real_time_risk_fraud_eng.State.Entity.{float_of}
use real_time_risk_fraud_eng.Data.Split.{
  Row, Split, Verdict, bound, take, drop, iloc, times, cut, compute_temporal_split, verify_split,
  truncated, is_small, bad_ratios, lte, column_max, column_min,
}
use real_time_risk_fraud_eng.Data.Split.Slices.{
  Ordered, parts, ordered_cut, lte_of_Ordered, Ordered-left, Ordered-right, described_ok,
  described_returns, length-take, length-drop, length-iloc,
}
use real_time_risk_fraud_eng.Data.Split.Sets.{
  set_of-Distinct, Distinct-left, Distinct-right, Distinct-outer, disjoint_of_Distinct,
}

abbrev pub ids : {I : Type 0} → List (Row I) → List I
ids rows = map (λ r. r.id) rows

-- What `verify_split` answers for three parts that pass.
abbrev pub passing : {I : Type 0} → Split I → Verdict
passing s =
    let n = length s.train + length s.val + length s.test in
    record {
      no_row_overlap_train_val = true;
      no_row_overlap_val_test = true;
      no_row_overlap_train_test = true;
      max_train_dt_lte_min_val_dt = true;
      max_val_dt_lte_min_test_dt = true;
      train_proportion = (length s.train, n);
      val_proportion = (length s.val, n);
      test_proportion = (length s.test, n);
      all_ids_unique_across_splits = true;
    }

-- Three parts of some rows, each with rows.
pub record IsPartition {I : Type 0} (rows : List (Row I)) (s : Split I) : Type 0 where
  pub whole : s.train ++ (s.val ++ s.test) ≡ rows
  pub some_train : 0 < length s.train
  pub some_val : 0 < length s.val
  pub some_test : 0 < length s.test

lte_of_parts :
    {I : Type 0} (xs ys : List (Row I))
    → Ordered (times xs ++ times ys)
    → 0 < length xs
    → 0 < length ys
    → lte (column_max (times xs)) (column_min (times ys)) ≡ true
lte_of_parts [] ys o h k = ground (arith, h)
lte_of_parts (x ∷ xs) [] o h k = ground (arith, k)
lte_of_parts (x ∷ xs) (y ∷ ys) o h k = lte_of_Ordered x.time (times xs) y.time (times ys) o

module _ {I : Type 0} ⦃e : Hashable I⦄ where
  verify_split_of_parts :
      (s : Split I) (rows : List (Row I))
      → IsPartition rows s
      → Ordered (times rows)
      → Distinct (ids rows)
      → verify_split s.train s.val s.test ≡ ok (passing s)
  unfolding verify_split
  verify_split_of_parts s rows p o d =
      let x = ids s.train in
      let y = ids s.val in
      let z = ids s.test in
      let id_of = λ (r : Row I). r.id in
      let time_of = λ (r : Row I). r.time in
      let ids_split : ids rows ≡ x ++ (y ++ z) = rw (← p.whole) (
        map-append id_of s.train (s.val ++ s.test)
        ∙ ap (λ l. x ++ l) (map-append id_of s.val s.test)) in
      let times_split : times rows ≡ times s.train ++ (times s.val ++ times s.test) =
        rw (← p.whole) (
          map-append time_of s.train (s.val ++ s.test)
          ∙ ap (λ l. times s.train ++ l) (map-append time_of s.val s.test)) in
      let all = subst (λ l. Distinct l) ids_split d in
      let in_order = subst (λ l. Ordered l) times_split o in
      let first = subst (λ l. Distinct l) (sym (append_assoc x y z)) all in
      let first_order =
        subst (λ l. Ordered l) (sym (append_assoc (times s.train) (times s.val) (times s.test)))
          in_order in
      let nonempty : eqb (length s.train + length s.val + length s.test) 0 ≡ false =
        ground (arith, p.some_train) in
      let together : eqb (length x + length y + length z) (length (x ++ y ++ z)) ≡ true =
        ground (arith, length-append (x ++ y) z, length-append x y) in
      rw
        (
          nonempty,
          set_of-Distinct x (Distinct-left x (y ++ z) all),
          set_of-Distinct y (Distinct-left y z (Distinct-right x (y ++ z) all)),
          set_of-Distinct z (Distinct-right y z (Distinct-right x (y ++ z) all)),
          set_of-Distinct (x ++ y ++ z) first,
          disjoint_of_Distinct x y (Distinct-left (x ++ y) z first),
          disjoint_of_Distinct y z (Distinct-right x (y ++ z) all),
          disjoint_of_Distinct x z (Distinct-outer x y z all),
          lte_of_parts s.train s.val
              (Ordered-left (times s.train ++ times s.val) (times s.test) first_order) p.some_train
              p.some_val,
          lte_of_parts s.val s.test
              (Ordered-right (times s.train) (times s.val ++ times s.test) in_order) p.some_val
              p.some_test,
          together,
        )
        refl

module _ {I : Type 0} (A : Arithmetic) (sort_values : List (Row I) → List (Row I)) where
  cut-IsPartition :
      (rows : List (Row I)) (a b : ℤ) (s : Split I)
      → cut A sort_values rows a b ≡ ok s
      → IsPartition rows s
  unfolding cut
  cut-IsPartition rows a b s h =
      let i = bound (length rows) a in
      let j = bound (length rows) b in
      let (train, val, test, some_train, some_val, some_test) =
        described_ok A sort_values (length rows) a b (take i rows) (iloc i j rows) (drop j rows) s
          h in
      record {
        whole = rw (train, val, test) (parts i j rows (ordered_cut i j rows some_val));
        some_train = rw train some_train;
        some_val = rw val some_val;
        some_test = rw test some_test;
      }

  -- With a sort that sorts and distinct ids, a split that is returned is of three parts that are not empty,
  -- together the sorted rows, and the independent verification accepts it.
  pub compute_temporal_split-IsPartition :
      ⦃e : Hashable I⦄ (df : List (Row I)) (train_ratio val_ratio test_ratio : Float) (s : Split I)
      → Ordered (times (sort_values df))
      → Distinct (ids (sort_values df))
      → compute_temporal_split A sort_values df train_ratio val_ratio test_ratio ≡ ok s
      → IsPartition (sort_values df) s × (verify_split s.train s.val s.test ≡ ok (passing s))
  unfolding compute_temporal_split
  compute_temporal_split-IsPartition df a b c s o d h =
      let (u, checked, h1) =
        bind_ok (raise_if (not (is_small (A.sub (A.add (A.add a b) c) one_float))) bad_ratios) _ s
          h in
      let (i, i_ok, h2) =
        bind_ok (truncated (A.mul (float_of (length (sort_values df))) a)) _ s h1 in
      let (j, j_ok, h3) =
        bind_ok (truncated (A.mul (float_of (length (sort_values df))) (A.add a b))) _ s h2 in
      let p = cut-IsPartition (sort_values df) i j s h3 in
      (p, verify_split_of_parts s (sort_values df) p o d)

  -- With ratios that sum to one, it returns if the ends are in order, the first one after the first row and
  -- the second one before the last.
  pub compute_temporal_split_returns :
      (df : List (Row I)) (train_ratio val_ratio test_ratio : Float) (i j : ℕ)
      → is_small (A.sub (A.add (A.add train_ratio val_ratio) test_ratio) one_float) ≡ true
      → truncated (A.mul (float_of (length (sort_values df))) train_ratio) ≡ ok (pos i)
      → truncated (A.mul (float_of (length (sort_values df))) (A.add train_ratio val_ratio))
        ≡ ok (pos j)
      → 0 < i
      → i < j
      → j < length (sort_values df)
      → (s : Split I) × (compute_temporal_split A sort_values df train_ratio val_ratio test_ratio
          ≡ ok s)
        × (length s.train ≡ i)
        × (length s.train + length s.val ≡ j)
  unfolding compute_temporal_split cut bound
  compute_temporal_split_returns df a b c i j small i_ok j_ok first second last =
      let rows = sort_values df in
      let train = length-take i rows (omega (arith, second, last)) in
      let val = length-iloc i j rows (omega (arith, second)) (omega (arith, last)) in
      let test = length-drop j rows (omega (arith, last)) in
      let (s, done, same_train, same_val) =
        described_returns A sort_values (length rows) (pos i) (pos j) (take i rows) (iloc i j rows)
          (drop j rows) (omega (arith, train, first)) (omega (arith, val, second))
          (omega (arith, test, last)) in
      (
        s,
        rw (small, i_ok, j_ok) done,
        rw same_train train,
        rw (same_train, same_val) (omega (arith, train, val)),
      )
