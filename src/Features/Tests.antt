-- ===== src/Features/Tests.antt =====
-- The offline features of three transactions, two of them of one card.
use real_time_risk_fraud_eng.Prelude.{
  ℕ, ◌≡◌, refl, false, some, List, [], ◌∷◌, ◌++◌, map, All, keep, String,
}
use real_time_risk_fraud_eng.Prelude.Int.{pos}
use real_time_risk_fraud_eng.Prelude.Keys.{str_key, int_key}
use real_time_risk_fraud_eng.Result.{ok}
use real_time_risk_fraud_eng.Float.{Float, exact, nan, is_nan, le, scale, ninf, pinf, fin}
use real_time_risk_fraud_eng.Float.Exact.{exact_arithmetic, exact_sub}
use real_time_risk_fraud_eng.State.Tests.{exact-IsMonotone}
use real_time_risk_fraud_eng.State.Entity.{features_of}
use real_time_risk_fraud_eng.Features.Columns.{get_elem?}
use real_time_risk_fraud_eng.Features.Behavioral.{
  Row, Frame, Offline, Velocity, admitted_columns, compute_behavioral_features,
}
use real_time_risk_fraud_eng.Features.Behavioral.Groups.{those}
use real_time_risk_fraud_eng.Features.Behavioral.Recall.{found_after}
use real_time_risk_fraud_eng.Features.Behavioral.Sample.{
  sample_pandas, sample_pandas-IsPandas, sort_rows,
}
use real_time_risk_fraud_eng.Features.Behavioral.Parity.{
  AgreesOffMean, compute_behavioral_features-AgreesOffMean,
}

abbrev row : ℕ → ℕ → String → ℕ → Row String ℕ
row i t k a = record {
  transaction_id = i;
  time = exact (pos t);
  entity = k;
  amount = exact (pos a);
}

abbrev first : List (Row String ℕ)
first = row 1 100 "c1" 5 ∷ row 2 200 "c2" 6 ∷ []

abbrev frame : Frame String ℕ
frame = record {
  columns = "TransactionID" ∷ "TransactionDT" ∷ "card1" ∷ "TransactionAmt" ∷ [];
  rows = first ++ row 3 300 "c1" 7 ∷ [];
}

admits : admitted_columns frame.columns ≡ ok tt
unfolding admitted_columns
admits = refl

frame_sorted : sort_rows frame.rows ≡ first ++ row 3 300 "c1" 7 ∷ []
unfolding sort_rows le exact scale
frame_sorted = refl

nan_subtracted : (x : Float) → exact_sub x nan ≡ nan
unfolding exact_sub
nan_subtracted nan = refl
nan_subtracted ninf = refl
nan_subtracted pinf = refl
nan_subtracted (fin a) = refl

frame_times : All (λ (q : Row String ℕ). is_nan q.time ≡ false) frame.rows
unfolding is_nan exact
frame_times = (refl, (refl, (refl, tt)))

earlier_amounts : All (λ x. is_nan x ≡ false) (map (λ q. q.amount) (those "c1" first))
unfolding is_nan exact those keep
earlier_amounts = (refl, tt)

compute_behavioral_features-AgreesOffMean_example :
    (out : List (ℕ × (Offline × Velocity))) × (o : Offline) × (v : Velocity)
    × (compute_behavioral_features exact_arithmetic sample_pandas frame ≡ ok out)
    × (get_elem? out 2 ≡ some (3, (o, v)))
    × AgreesOffMean o v (
        features_of exact_arithmetic
          (exact (pos 300))
          (exact (pos 7))
          (found_after exact_arithmetic (those "c1" first)))
compute_behavioral_features-AgreesOffMean_example =
    compute_behavioral_features-AgreesOffMean exact_arithmetic sample_pandas sample_pandas-IsPandas
      exact-IsMonotone nan_subtracted frame first (row 3 300 "c1" 7) [] admits frame_times
      frame_sorted (refl, (refl, (refl, tt))) earlier_amounts
