-- ===== src/Data/Tests.antt =====
-- A split of four rows by the ratios 1/2, 1/4 and 1/4, over products without rounding.
use Prim.Native.Nat.{◌/◌}
use real_time_risk_fraud_eng.Prelude.{ℕ, ◌*◌, ◌+◌, ◌≡◌, refl, true, List, [], ◌∷◌, length, arith}
use real_time_risk_fraud_eng.Prelude.Int.{pos, ◌-ℤ◌}
use real_time_risk_fraud_eng.Prelude.Keys.{int_key}
use real_time_risk_fraud_eng.Prelude.Distinct.{Distinct}
use real_time_risk_fraud_eng.Result.{ok}
use real_time_risk_fraud_eng.Float.{
  Float, nan, fin, exact, scale, dyadic, one_float, lt, Arithmetic,
}
use real_time_risk_fraud_eng.Float.Exact.{exact_arithmetic, exact_sub, negated}
use real_time_risk_fraud_eng.State.Entity.{float_of}
use real_time_risk_fraud_eng.Data.Split.{
  Row, Split, compute_temporal_split, verify_split, truncated, is_small, times,
}
use real_time_risk_fraud_eng.Data.Split.Slices.{Ordered}
use real_time_risk_fraud_eng.Data.Split.Partition.{
  IsPartition, passing, ids, compute_temporal_split-IsPartition, compute_temporal_split_returns,
}

unfoldable product : Float → Float → Float
product (fin (pos a)) (fin (pos b)) = fin (pos (a * b / scale))
product _ _ = nan

abbrev arithmetic : Arithmetic
arithmetic = record exact_arithmetic { mul = product }

abbrev half : Float
half = dyadic 1 1

abbrev quarter : Float
quarter = dyadic 1 2

abbrev row : ℕ → ℕ → Row ℕ
row i t = record { id = i; time = pos t }

abbrev rows : List (Row ℕ)
rows = row 7 10 ∷ row 8 20 ∷ row 9 20 ∷ row 5 30 ∷ []

sums :
    is_small (arithmetic.sub (arithmetic.add (arithmetic.add half quarter) quarter) one_float)
    ≡ true
unfolding is_small exact_sub negated dyadic scale one_float lt ◌-ℤ◌
sums = refl

first_end : truncated (arithmetic.mul (float_of (length rows)) half) ≡ ok (pos 2)
unfolding truncated product dyadic scale exact
first_end = refl

second_end :
    truncated (arithmetic.mul (float_of (length rows)) (arithmetic.add half quarter)) ≡ ok (pos 3)
unfolding truncated product dyadic scale exact exact_sub negated ◌-ℤ◌
second_end = refl

compute_temporal_split_returns_example :
    (s : Split ℕ) × (compute_temporal_split arithmetic (λ df. df) rows half quarter quarter ≡ ok s)
    × (length s.train ≡ 2)
    × (length s.train + length s.val ≡ 3)
compute_temporal_split_returns_example =
    compute_temporal_split_returns arithmetic (λ df. df) rows half quarter quarter 2 3 sums
      first_end second_end (omega arith) (omega arith) (omega arith)

returned :
    (s : Split ℕ) × (compute_temporal_split arithmetic (λ df. df) rows half quarter quarter ≡ ok s)
    × (length s.train ≡ 2)
    × (length s.train + length s.val ≡ 3)
returned =
    compute_temporal_split_returns arithmetic (λ df. df) rows half quarter quarter 2 3 sums
      first_end second_end (omega arith) (omega arith) (omega arith)

in_order : Ordered (times rows)
in_order = ((refl, (refl, (refl, tt))), ((refl, (refl, tt)), ((refl, tt), (tt, tt))))

distinct : Distinct (ids rows)
distinct = (refl, (refl, (refl, (refl, tt))))

compute_temporal_split-IsPartition_example :
    IsPartition rows returned.0
    × (verify_split returned.0.train returned.0.val returned.0.test ≡ ok (passing returned.0))
compute_temporal_split-IsPartition_example =
    compute_temporal_split-IsPartition arithmetic (λ df. df) rows half quarter quarter returned.0
      in_order distinct returned.1
