-- ===== src/Engine/Validation.antt =====
-- `_validate_transaction` (src/engine/risk_engine.py).
use Prim.Native.Nat.{Ordering}
use Prim.Native.String.{compare}
use real_time_risk_fraud_eng.Prelude.{
  Bool, true, false, not, ◌&&◌, String, Option, none, some, List, [], ◌∷◌, if◌then◌else◌, keep,
  is_some,
}
use real_time_risk_fraud_eng.Prelude.Keys.{Dict, ◌==◌, lookup, str_key}
use real_time_risk_fraud_eng.Result.{Result, ok, err, ◌>>=◌, ◌>>◌, raise_if}
use real_time_risk_fraud_eng.Float.{Float, is_finite, lt, zero_float, one_float, Arithmetic}
use real_time_risk_fraud_eng.Value.{Value, null, other, bool, number, str, int, float}

-- One entry of the schema, a `FeatureSpec`, as far as the engine reads it.
pub record FieldSpec : Type 0 where
  pub name : String
  pub used : Bool
  pub numeric : Bool

abbrev pub Schema : Type 0
Schema = List FieldSpec

pub record Columns : Type 0 where
  pub entity : String
  pub time : String
  pub id : String
  pub amount : String

pub data ValidationError : Type 0 where
  has_label : ValidationError
  missing_fields : List String → ValidationError
  required_none not_numeric not_finite negative : String → ValidationError

-- `overflow` is the OverflowError of `float` on a huge int, which no handler catches.
pub data Fault : Type 0 where
  invalid : ValidationError → Fault
  overflow : Fault

-- A name put into a sorted list that does not hold it yet.
unfoldable pub insert_sorted : String → List String → List String
insert_sorted c [] = c ∷ []
insert_sorted c (x ∷ xs) = elim (compare c x) [
  | Ordering.lt ↦ c ∷ x ∷ xs
  | Ordering.eq ↦ x ∷ xs
  | Ordering.gt ↦ x ∷ insert_sorted c xs
]

-- `_expected_raw_columns`: sorted({s.name for s in schema} - {"isFraud"})
unfoldable pub expected : Schema → List String
unfolding insert_sorted
expected [] = []
expected (f ∷ fs) =
    let rest = expected fs in if f.name == "isFraud" then rest else insert_sorted f.name rest

-- The names of the used numeric features among the raw columns.
unfoldable pub numeric_columns : Schema → List String
numeric_columns [] = []
numeric_columns (f ∷ fs) =
    let rest = numeric_columns fs in
    if f.used && f.numeric && not (f.name == "isFraud") then f.name ∷ rest else rest

-- `k in transaction`
unfoldable pub has_key : Dict String Value → String → Bool
has_key txn k = is_some (lookup k txn)

-- `transaction.get(k)`, with `None` for a missing key
or_null : Option Value → Value
or_null none = null
or_null (some v) = v

unfoldable pub value_at : String → Dict String Value → Value
unfolding or_null
value_at k txn = or_null (lookup k txn)

unfoldable pub is_null : Value → Bool
is_null null = true
is_null other = false
is_null (bool b) = false
is_null (number n) = false
is_null (str s) = false

unfoldable pub missing : List String → Dict String Value → List String
unfolding has_key
missing cs txn = keep (λ c. not (has_key txn c)) cs

unless_empty : List String → Result Fault (Unit {0})
unless_empty [] = ok tt
unless_empty (c ∷ cs) = err (invalid (missing_fields (c ∷ cs)))

-- The loop over the required fields.
check_present : List String → Dict String Value → Result Fault (Unit {0})
check_present [] txn = ok tt
check_present (c ∷ cs) txn = do
  raise_if (is_null (value_at c txn)) (invalid (required_none c))
  check_present cs txn

module _ (A : Arithmetic) where
  converted_int : Option Float → Result Fault Float
  converted_int none = err overflow
  converted_int (some x) = ok x

  converted_text : String → Option Float → Result Fault Float
  converted_text field none = err (invalid (not_numeric field))
  converted_text field (some x) = ok x

  -- `float(value)` inside its `try`
  unfoldable pub to_float : String → Value → Result Fault Float
  unfolding converted_int converted_text
  to_float field null = err (invalid (not_numeric field))
  to_float field other = err (invalid (not_numeric field))
  to_float field (bool b) = ok (if b then one_float else zero_float)
  to_float field (number (int i)) = converted_int (A.of_int i)
  to_float field (number (float x)) = ok x
  to_float field (str s) = converted_text field (A.of_string s)

  -- The first two tests of a numeric field.
  unfoldable pub finite_number : String → Dict String Value → Result Fault Float
  finite_number field txn = do
    x ← to_float field (value_at field txn)
    raise_if (not (is_finite x)) (invalid (not_finite field))
    ok x

  -- The label and the missing keys, then the required fields, then the time and the amount.
  unfoldable pub validate : Schema → Columns → Dict String Value → Result Fault (Unit {0})
  unfolding missing unless_empty check_present finite_number
  validate schema c txn = do
    raise_if (has_key txn "isFraud") (invalid has_label)
    unless_empty (missing (expected schema) txn)
    check_present (c.id ∷ c.time ∷ c.amount ∷ c.entity ∷ []) txn
    t ← finite_number c.time txn
    a ← finite_number c.amount txn
    raise_if (lt a zero_float) (invalid (negative c.amount))
