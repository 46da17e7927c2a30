-- ===== src/Data/Split.antt =====
-- The temporal split (src/data/split.py). `sort_values` of pandas is a parameter; the time column is one
-- of integers without missing values.
pub mod Slices
pub mod Sets
pub mod Partition
use Prim.Native.Nat.{◌/◌}
use real_time_risk_fraud_eng.Prelude.{
  ℕ, zero, suc, ◌+◌, ◌-◌, Bool, true, false, not, ◌&&◌, Option, none, some, List, [], ◌∷◌, ◌++◌,
  map, length, if◌then◌else◌, eqb, leb, any,
}
use real_time_risk_fraud_eng.Prelude.Int.{ℤ, pos, negsuc, leb_ℤ}
use real_time_risk_fraud_eng.Prelude.Keys.{Hashable}
use real_time_risk_fraud_eng.Prelude.Distinct.{elem}
use real_time_risk_fraud_eng.Result.{Result, ok, err, ◌>>=◌, ◌>>◌, raise_if}
use real_time_risk_fraud_eng.Float.{
  Float, nan, ninf, pinf, fin, scale, lt, zero_float, one_float, dyadic, Arithmetic,
}
use real_time_risk_fraud_eng.State.Entity.{float_of}

-- The two columns that are read, of a row.
pub record Row (I : Type 0) : Type 0 where
  pub id : I
  pub time : ℤ

-- The ratios do not sum to one; `int` of a NaN or an infinity, of which the smallest and the largest value
-- of an empty column are the former; and a proportion of no rows.
pub data SplitError : Type 0 where
  bad_ratios value_error overflow_error zero_division : SplitError

-- Without the names of the columns, the ratios and the method, which are copied.
pub record SplitMetadata : Type 0 where
  pub n_rows_total : ℕ
  pub n_rows_train : ℕ
  pub n_rows_val : ℕ
  pub n_rows_test : ℕ
  pub train_row_end : ℤ
  pub val_row_start : ℤ
  pub val_row_end : ℤ
  pub test_row_start : ℤ
  pub test_row_end : ℕ
  pub train_dt_min : ℤ
  pub train_dt_max : ℤ
  pub val_dt_min : ℤ
  pub val_dt_max : ℤ
  pub test_dt_min : ℤ
  pub test_dt_max : ℤ

-- `int` of a float
unfoldable pub truncated : Float → Result SplitError ℤ
truncated nan = err value_error
truncated ninf = err overflow_error
truncated pinf = err overflow_error
truncated (fin (pos n)) = ok (pos (n / scale))
truncated (fin (negsuc n)) = ok (elim (suc n / scale) [ zero ↦ pos 0 | suc k ↦ negsuc k ])

-- rows[:n] and rows[n:], of a position that is not negative
unfoldable pub take : {X : Type 0} → ℕ → List X → List X
take zero xs = []
take (suc n) [] = []
take (suc n) (x ∷ xs) = x ∷ take n xs

unfoldable pub drop : {X : Type 0} → ℕ → List X → List X
drop zero xs = xs
drop (suc n) [] = []
drop (suc n) (x ∷ xs) = drop n xs

-- A bound of a slice of `n` rows: a negative one counts from the end.
unfoldable pub bound : ℕ → ℤ → ℕ
bound n (pos i) = i
bound n (negsuc i) = n - suc i

-- rows.iloc[start:end]
unfoldable pub iloc : {X : Type 0} → ℕ → ℕ → List X → List X
unfolding take drop
iloc start end rows = take (end - start) (drop start rows)

unfoldable pub lowest_from : ℤ → List ℤ → ℤ
lowest_from m [] = m
lowest_from m (t ∷ ts) = lowest_from (if leb_ℤ m t then m else t) ts

unfoldable pub highest_from : ℤ → List ℤ → ℤ
highest_from m [] = m
highest_from m (t ∷ ts) = highest_from (if leb_ℤ t m then m else t) ts

-- column.min() and column.max(), `none` (a NaN) of an empty column
unfoldable pub column_min : List ℤ → Option ℤ
unfolding lowest_from
column_min [] = none
column_min (t ∷ ts) = some (lowest_from t ts)

unfoldable pub column_max : List ℤ → Option ℤ
unfolding highest_from
column_max [] = none
column_max (t ∷ ts) = some (highest_from t ts)

-- `int` of that
unfoldable pub whole : Option ℤ → Result SplitError ℤ
whole none = err value_error
whole (some t) = ok t

-- abs(x) < 1e-6
unfoldable pub is_small : Float → Bool
is_small nan = false
is_small ninf = false
is_small pinf = false
is_small (fin (pos n)) = lt (fin (pos n)) (dyadic 4722366482869645 72)
is_small (fin (negsuc n)) = lt (fin (pos (suc n))) (dyadic 4722366482869645 72)

abbrev pub times : {I : Type 0} → List (Row I) → List ℤ
times rows = map (λ r. r.time) rows

pub record Split (I : Type 0) : Type 0 where
  pub train : List (Row I)
  pub val : List (Row I)
  pub test : List (Row I)
  pub metadata : SplitMetadata

module _ {I : Type 0} (A : Arithmetic) (sort_values : List (Row I) → List (Row I)) where
  open A use {add, sub, mul}

  -- The three parts of `n` rows that are cut at the two ends, with the metadata.
  unfoldable pub described :
      ℕ → ℤ → ℤ → List (Row I) → List (Row I) → List (Row I) → Result SplitError (Split I)
  unfolding column_min column_max whole
  described n train_end val_end train val test = do
    train_min ← whole (column_min (times train))
    train_max ← whole (column_max (times train))
    val_min ← whole (column_min (times val))
    val_max ← whole (column_max (times val))
    test_min ← whole (column_min (times test))
    test_max ← whole (column_max (times test))
    ok (record {
      train = train;
      val = val;
      test = test;
      metadata = record {
        n_rows_total = n;
        n_rows_train = length train;
        n_rows_val = length val;
        n_rows_test = length test;
        train_row_end = train_end;
        val_row_start = train_end;
        val_row_end = val_end;
        test_row_start = val_end;
        test_row_end = n;
        train_dt_min = train_min;
        train_dt_max = train_max;
        val_dt_min = val_min;
        val_dt_max = val_max;
        test_dt_min = test_min;
        test_dt_max = test_max;
      };
    })

  -- The cut of sorted rows at the two ends.
  unfoldable pub cut : List (Row I) → ℤ → ℤ → Result SplitError (Split I)
  unfolding bound iloc take drop described
  cut rows train_end val_end =
      let n = length rows in
      described n train_end val_end (take (bound n train_end) rows)
        (iloc (bound n train_end) (bound n val_end) rows) (drop (bound n val_end) rows)

  unfoldable pub compute_temporal_split :
      List (Row I) → Float → Float → Float → Result SplitError (Split I)
  unfolding is_small truncated cut
  compute_temporal_split df train_ratio val_ratio test_ratio = do
    raise_if (not (is_small (sub (add (add train_ratio val_ratio) test_ratio) one_float)))
        bad_ratios
    let rows = sort_values df
    let n = float_of (length rows)
    train_end ← truncated (mul n train_ratio)
    val_end ← truncated (mul n (add train_ratio val_ratio))
    cut rows train_end val_end

-- The results of `verify_split`; a proportion is a numerator with its denominator.
pub record Verdict : Type 0 where
  pub no_row_overlap_train_val : Bool
  pub no_row_overlap_val_test : Bool
  pub no_row_overlap_train_test : Bool
  pub max_train_dt_lte_min_val_dt : Bool
  pub max_val_dt_lte_min_test_dt : Bool
  pub train_proportion : ℕ × ℕ
  pub val_proportion : ℕ × ℕ
  pub test_proportion : ℕ × ℕ
  pub all_ids_unique_across_splits : Bool

-- x <= y, with a NaN for an empty column
unfoldable pub lte : Option ℤ → Option ℤ → Bool
lte (some x) (some y) = leb_ℤ x y
lte _ _ = false

module _ {I : Type 0} ⦃e : Hashable I⦄ where
  -- set(column)
  unfoldable pub set_of : List I → List I
  set_of [] = []
  set_of (i ∷ is) = let rest = set_of is in if elem i rest then rest else i ∷ rest

  -- len(xs & ys) == 0
  unfoldable pub are_disjoint : List I → List I → Bool
  are_disjoint xs ys = not (any (λ i. elem i ys) xs)

  unfoldable pub verify_split :
      List (Row I) → List (Row I) → List (Row I) → Result SplitError Verdict
  unfolding set_of are_disjoint lte column_min column_max
  verify_split train val test = do
    let ids_train = set_of (map (λ r. r.id) train)
    let ids_val = set_of (map (λ r. r.id) val)
    let ids_test = set_of (map (λ r. r.id) test)
    let n_total = length train + length val + length test
    raise_if (eqb n_total 0) zero_division
    ok (record {
      no_row_overlap_train_val = are_disjoint ids_train ids_val;
      no_row_overlap_val_test = are_disjoint ids_val ids_test;
      no_row_overlap_train_test = are_disjoint ids_train ids_test;
      max_train_dt_lte_min_val_dt = lte (column_max (times train)) (column_min (times val));
      max_val_dt_lte_min_test_dt = lte (column_max (times val)) (column_min (times test));
      train_proportion = (length train, n_total);
      val_proportion = (length val, n_total);
      test_proportion = (length test, n_total);
      all_ids_unique_across_splits =
          eqb (length ids_train + length ids_val + length ids_test)
            (length (set_of (ids_train ++ ids_val ++ ids_test)));
    })
