-- ===== src/Float.antt =====
-- Python's `float` (an IEEE double). Every finite double is an integer multiple of 2^-1074, so the
-- values and all comparisons are exact here; -0.0 and 0.0, which compare equal, are one value.
-- Rounded arithmetic is `Arithmetic`, a parameter of what computes with it.
pub mod Order
pub mod Exact
use real_time_risk_fraud_eng.Prelude.{
  ℕ, ◌*◌, ◌-◌, ◌^◌, Bool, true, false, not, ◌&&◌, ◌||◌, Option, none, some, if◌then◌else◌, String,
}
use real_time_risk_fraud_eng.Prelude.Int.{ℤ, pos, negsuc, ltb_ℤ, leb_ℤ, scaled}

pub data Float : Type 0 where
  nan ninf pinf : Float
  fin : ℤ → Float

-- The number of units in 1.0.
unfoldable pub scale : ℕ
scale = 2 ^ 1074

-- The double m / 2^e, for a literal.
unfoldable pub dyadic : ℕ → ℕ → Float
dyadic m e = fin (pos (m * 2 ^ (1074 - e)))

unfoldable pub zero_float : Float
zero_float = fin (pos 0)

unfoldable pub one_float : Float
one_float = fin (pos scale)

-- An `int` where Python compares it with a `float`: the comparison is exact.
unfoldable pub exact : ℤ → Float
exact i = fin (scaled i scale)

-- x != x
unfoldable pub is_nan : Float → Bool
is_nan nan = true
is_nan ninf = false
is_nan pinf = false
is_nan (fin _) = false

-- np.isfinite
unfoldable pub is_finite : Float → Bool
is_finite nan = false
is_finite ninf = false
is_finite pinf = false
is_finite (fin _) = true

-- x < y
unfoldable pub lt : Float → Float → Bool
lt nan y = false
lt ninf nan = false
lt ninf ninf = false
lt ninf pinf = true
lt ninf (fin b) = true
lt pinf y = false
lt (fin a) nan = false
lt (fin a) ninf = false
lt (fin a) pinf = true
lt (fin a) (fin b) = ltb_ℤ a b

-- x <= y
unfoldable pub le : Float → Float → Bool
le nan y = false
le ninf nan = false
le ninf ninf = true
le ninf pinf = true
le ninf (fin b) = true
le pinf nan = false
le pinf ninf = false
le pinf pinf = true
le pinf (fin b) = false
le (fin a) nan = false
le (fin a) ninf = false
le (fin a) pinf = true
le (fin a) (fin b) = leb_ℤ a b

-- `min(x, y)` and `max(x, y)`: the first argument unless the second is strictly beyond it.
unfoldable pub min : Float → Float → Float
min x y = if lt y x then y else x

unfoldable pub max : Float → Float → Float
max x y = if lt x y then y else x

-- Rounded arithmetic and `math`, and the conversions of `float(value)`: `none` where Python raises.
pub record Arithmetic : Type 0 where
  pub add : Float → Float → Float
  pub sub : Float → Float → Float
  pub mul : Float → Float → Float
  pub div : Float → Float → Float
  pub sqrt : Float → Float
  pub log1p : Float → Float
  pub of_int : ℤ → Option Float
  pub of_string : String → Option Float
