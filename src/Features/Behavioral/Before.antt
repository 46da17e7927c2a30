-- ===== src/Features/Behavioral/Before.antt =====
-- How many times of an ascending list are before one of them and within a window: what
-- `np.arange(len(t)) - lower_idx` (src/features/behavioral.py) counts.
use real_time_risk_fraud_eng.Prelude.{
  ◌+◌, ◌≡◌, refl, true, false, List, [], ◌∷◌, ◌++◌, arith, length, count, All,
}
use real_time_risk_fraud_eng.Prelude.Int.{sub_ℕ, pos}
use real_time_risk_fraud_eng.Prelude.Keys.{int_key}
use real_time_risk_fraud_eng.Prelude.Lists.{count-append}
use real_time_risk_fraud_eng.Float.{Float, is_nan, le, lt}
use real_time_risk_fraud_eng.Float.Order.{
  le_refl, lt-eq-not-le, le_trans, not_nan_of_le_left, not_nan_of_le_right,
}
use real_time_risk_fraud_eng.State.Entity.Velocity.{Ascending}

-- Ascending times before and after one of them.
pub Ascending-split :
    (xs : List Float) (y : Float) (ys : List Float)
    → Ascending (xs ++ y ∷ ys)
    → All (λ x. is_nan x ≡ false) xs × (is_nan y ≡ false) × All (λ t. le y t ≡ true) ys
Ascending-split [] y ys a = (tt, a.0, a.1)
Ascending-split (x ∷ xs) y ys a = let (h, k, l) = Ascending-split xs y ys a.2 in ((a.0, h), k, l)

count_before :
    (c : Float) (xs : List Float)
    → is_nan c ≡ false
    → All (λ x. is_nan x ≡ false) xs
    → count (λ t. lt t c) xs + count (le c) xs ≡ length xs
unfolding count
count_before c [] h k = omega arith
count_before c (x ∷ xs) h k = ground (arith, lt-eq-not-le x c k.0 h, count_before c xs h k.1)

count_none :
    (c y : Float) (ys : List Float)
    → le c y ≡ true
    → All (λ t. le y t ≡ true) ys
    → count (λ t. lt t c) ys ≡ 0
unfolding count
count_none c y [] h k = refl
count_none c y (t ∷ ys) h k = ground (
  arith,
  le_trans c y t h k.0,
  lt-eq-not-le t c (not_nan_of_le_right y t k.0) (not_nan_of_le_left c y h),
  count_none c y ys h k.1,
)

-- What the vectorised formula computes for one row.
pub prior_count :
    (c y : Float) (xs ys : List Float)
    → Ascending (xs ++ y ∷ ys)
    → le c y ≡ true
    → sub_ℕ (length xs) (count (λ t. lt t c) (xs ++ y ∷ ys)) ≡ pos (count (le c) xs)
prior_count c y xs ys a h =
    let (numbers, number, later) = Ascending-split xs y ys a in
    let rest = count_none c y (y ∷ ys) h (le_refl y number, later) in
    ground (
      arith,
      count-append (λ t. lt t c) xs (y ∷ ys),
      rest,
      count_before c xs (not_nan_of_le_left c y h) numbers,
    )
