-- ===== src/Api/Requests/Admission.antt =====
-- What the engine's validation finds left to refuse in a request that the schema accepted.
use real_time_risk_fraud_eng.Prelude.{
  ◌≡◌, refl, ◌∙◌, Bool, true, false, not, String, Option, none, some, List, [], ◌∷◌, if◌then◌else◌,
  All, keep, arith,
}
use Prim.Native.Nat.{Ordering}
use Prim.Native.String.{compare}
use real_time_risk_fraud_eng.Prelude.Int.{ℤ}
use real_time_risk_fraud_eng.Prelude.Keys.{Dict, ◌==◌, lookup, str_key}
use real_time_risk_fraud_eng.Prelude.Distinct.{elem}
use real_time_risk_fraud_eng.Result.{ok, err, bind_ok, ok_injective, raise_if}
use real_time_risk_fraud_eng.Api.{request_validation, or_error}
use real_time_risk_fraud_eng.Float.{Float, is_finite, lt, le, zero_float, Arithmetic}
use real_time_risk_fraud_eng.Value.{Value, number, int, float}
use real_time_risk_fraud_eng.Engine.Validation.{
  Schema, Columns, expected, insert_sorted, has_key, value_at, missing, validate, invalid,
  not_finite, to_float, finite_number, is_null,
}
use real_time_risk_fraud_eng.Api.Requests.{parse_request, dt_is_finite, build_full_transaction_dict}

-- The columns of an engine that is built with its defaults.
abbrev pub default_columns : Columns
default_columns = record {
  entity = "card1";
  time = "TransactionDT";
  id = "TransactionID";
  amount = "TransactionAmt";
}

-- What Pydantic's conversion gives: the declared fields, with the declared types and the bound.
pub record IsTyped (request : Dict String Value) : Type 0 where
  pub id : ℤ
  pub dt : Float
  pub amt : Float
  pub card : ℤ
  pub has_id : value_at "TransactionID" request ≡ number (int id)
  pub has_dt : value_at "TransactionDT" request ≡ number (float dt)
  pub has_amt : value_at "TransactionAmt" request ≡ number (float amt)
  pub has_card : value_at "card1" request ≡ number (int card)
  pub not_negative : le zero_float amt ≡ true

lt-false-of-le : (x y : Float) → le x y ≡ true → lt y x ≡ false
unfolding le lt
lt-false-of-le x y h = ground arith

lookup-build :
    (c : String) (cs : List String) (request : Dict String Value)
    → lookup c (build_full_transaction_dict cs request)
      ≡ (if elem c cs then some (value_at c request) else none)
unfolding lookup build_full_transaction_dict
lookup-build c [] request = refl
lookup-build c (d ∷ cs) request = ground (arith, str_key.equal_iff d c, lookup-build c cs request)

-- The label is no expected column.
label_new :
    (c : String) (cs : List String)
    → (c == "isFraud") ≡ false
    → elem "isFraud" cs ≡ false
    → elem "isFraud" (insert_sorted c cs) ≡ false
unfolding insert_sorted
label_new c [] h k = ground arith
label_new c (x ∷ xs) h k =
    elim (compare c x)
      as (λ o.
        elem "isFraud" (elim o [
          | Ordering.lt ↦ c ∷ x ∷ xs
          | Ordering.eq ↦ x ∷ xs
          | Ordering.gt ↦ x ∷ insert_sorted c xs
        ])
        ≡ false) [
          | Ordering.lt ↦ ground arith
          | Ordering.eq ↦ k
          | Ordering.gt ↦ ground (arith, label_new c xs)
        ]

label_not_expected : (schema : Schema) → elem "isFraud" (expected schema) ≡ false
unfolding expected
label_not_expected [] = refl
label_not_expected (f ∷ fs) = ground (arith, label_new f.name (expected fs), label_not_expected fs)

All-elem-cons :
    (x : String) (xs cs : List String)
    → All (λ c. elem c xs ≡ true) cs
    → All (λ c. elem c (x ∷ xs) ≡ true) cs
All-elem-cons x xs [] h = tt
All-elem-cons x xs (c ∷ cs) h = (ground (arith, h.0), All-elem-cons x xs cs h.1)

All-elem : (cs : List String) → All (λ c. elem c cs ≡ true) cs
All-elem [] = tt
All-elem (c ∷ cs) = (ground (arith, str_key.equal_iff c c), All-elem-cons c cs cs (All-elem cs))

-- A dict that is built for the columns lacks none of them.
missing-build :
    (cs full : List String) (request : Dict String Value)
    → All (λ c. elem c full ≡ true) cs
    → missing cs (build_full_transaction_dict full request) ≡ []
unfolding missing keep has_key
missing-build [] full request h = refl
missing-build (c ∷ cs) full request h =
    rw (lookup-build c full request, h.0) (missing-build cs full request h.1)

has_key-build :
    (c : String) (full : List String) (request : Dict String Value)
    → elem c full ≡ false
    → has_key (build_full_transaction_dict full request) c ≡ false
unfolding has_key
has_key-build c full request h = rw (lookup-build c full request, h) refl

value_at-build :
    (c : String) (full : List String) (request : Dict String Value)
    → elem c full ≡ true
    → value_at c (build_full_transaction_dict full request) ≡ value_at c request
unfolding value_at
value_at-build c full request h = rw (lookup-build c full request, h) refl

module _ (A : Arithmetic) (schema : Schema) (request : Dict String Value) (t : IsTyped request)
    (has : All
      (λ c. elem c (expected schema) ≡ true)
      ("TransactionID" ∷ "TransactionDT" ∷ "TransactionAmt" ∷ "card1" ∷ [])) where
  abbrev full : Dict String Value
  full = build_full_transaction_dict (expected schema) request

  validate-build :
      is_finite t.dt ≡ true
      → validate A schema default_columns full
        ≡ (if is_finite t.amt then ok tt else err (invalid (not_finite "TransactionAmt")))
  unfolding validate finite_number to_float is_null
  validate-build h =
      let cs = expected schema in
      let id_there = value_at-build "TransactionID" cs request has.0 ∙ t.has_id in
      let dt_there = value_at-build "TransactionDT" cs request (has.1).0 ∙ t.has_dt in
      let amt_there = value_at-build "TransactionAmt" cs request ((has.1).1).0 ∙ t.has_amt in
      let card_there = value_at-build "card1" cs request (((has.1).1).1).0 ∙ t.has_card in
      let positive = lt-false-of-le zero_float t.amt t.not_negative in
      rw
        (
          has_key-build "isFraud" cs request (label_not_expected schema),
          missing-build cs cs request (All-elem cs),
          id_there,
          dt_there,
          amt_there,
          card_there,
          h,
        )
        (ground (arith, positive))

checked_of : (b : Bool) → raise_if b request_validation ≡ ok tt → b ≡ false
checked_of true h = ground arith
checked_of false h = refl

-- A request that the schema accepts came without a label and has a finite time.
parse_request_ok :
    (fields : Dict String Value → Option (Dict String Value)) (body request : Dict String Value)
    → parse_request fields body ≡ ok request
    → (has_key body "isFraud" ≡ false) × (dt_is_finite (value_at "TransactionDT" request) ≡ true)
unfolding parse_request
parse_request_ok fields body request h =
    let (u, unlabelled, h1) =
      bind_ok (raise_if (has_key body "isFraud") request_validation) _ request h in
    let (r, converted, h2) = bind_ok (or_error request_validation (fields body)) _ request h1 in
    let (v, finite, last) =
      bind_ok (raise_if (not (dt_is_finite (value_at "TransactionDT" r))) request_validation) _
        request h2 in
    (
      checked_of (has_key body "isFraud") unlabelled,
      rw (← ok_injective last)
          (ground (arith, checked_of (not (dt_is_finite (value_at "TransactionDT" r))) finite)),
    )

-- A request that the schema accepts came without a label. Expanded to the expected columns, it is refused
-- by the engine's validation only for an amount that is not finite, provided that the fields have their
-- declared types and the four required columns are expected.
pub parse_request-validate :
    (A : Arithmetic) (schema : Schema) (fields : Dict String Value → Option (Dict String Value))
    (body request : Dict String Value) (t : IsTyped request)
    → All
        (λ c. elem c (expected schema) ≡ true)
        ("TransactionID" ∷ "TransactionDT" ∷ "TransactionAmt" ∷ "card1" ∷ [])
    → parse_request fields body ≡ ok request
    → (has_key body "isFraud" ≡ false)
      × (validate A schema default_columns (build_full_transaction_dict (expected schema) request)
          ≡ (if is_finite t.amt then ok tt else err (invalid (not_finite "TransactionAmt"))))
unfolding dt_is_finite
parse_request-validate A schema fields body request t has parsed =
    let (unlabelled, finite) = parse_request_ok fields body request parsed in
    (unlabelled, validate-build A schema request t has (ground (arith, finite, t.has_dt)))
