-- ===== src/Drift/Categorical/Grouping.antt =====
-- The grouping of rare categories (src/drift/reference.py) and the one of a batch (src/drift/detectors.py)
-- keep the same names of the same frequencies.
use real_time_risk_fraud_eng.Prelude.{
  ◌≡◌, refl, ◌∙◌, Bool, true, false, String, [], ◌∷◌, arith, All, if◌then◌else◌, Bool-cases, inl,
  inr,
}
use real_time_risk_fraud_eng.Prelude.Keys.{Dict, insert, str_key, ◌==◌, equal_refl}
use real_time_risk_fraud_eng.Prelude.Distinct.{keys, elem, Distinct}
use real_time_risk_fraud_eng.Float.{Float, zero_float, Arithmetic}
use real_time_risk_fraud_eng.Drift.Categorical.{
  Statistics, other_label, grouped, with_other, kept_categories,
}
use real_time_risk_fraud_eng.Drift.Categorical.Surfacing.{elem-without}

-- Whether an entry of the name passes the test.
abbrev pub passes : (String → Float → Bool) → String → Dict String Float → Bool
passes test c [] = false
passes test c ((j, x) ∷ raw) =
    if j == c then (if test j x then true else passes test c raw) else passes test c raw

absent_passes :
    (test : String → Float → Bool) (c : String) (raw : Dict String Float)
    → elem c (keys raw) ≡ false
    → passes test c raw ≡ false
absent_passes test c [] h = refl
absent_passes test c ((j, x) ∷ raw) h = ground (arith, h, absent_passes test c raw)

passes_later :
    (test : String → Float → Bool) (c : String) (x : Float) (raw part : Dict String Float)
    → elem c (keys part) ≡ false
    → All (λ e. passes test e.0 raw ≡ test e.0 e.1) part
    → All (λ e. passes test e.0 ((c, x) ∷ raw) ≡ test e.0 e.1) part
passes_later test c x raw [] h k = tt
passes_later test c x raw ((j, y) ∷ part) h k =
    ground
      (arith, h, k.0, str_key.equal_iff c j, str_key.equal_iff j c, passes_later test c x raw part)

-- Of a dict each entry decides for its name.
pub passes_own :
    (test : String → Float → Bool) (raw : Dict String Float)
    → Distinct (keys raw)
    → All (λ e. passes test e.0 raw ≡ test e.0 e.1) raw
passes_own test [] d = tt
passes_own test ((c, x) ∷ raw) d = (
  ground (arith, equal_refl c, absent_passes test c raw d.0),
  passes_later test c x raw raw d.0 (passes_own test raw d.1),
)

pub others :
    (c : String) (raw : Dict String Float)
    → elem c (keys raw) ≡ false
    → All (λ (e : String × Float). (e.0 == c) ≡ false) raw
others c [] h = tt
others c ((j, x) ∷ raw) h = ground (arith, h, others c raw)

elem-keys-insert :
    (c k : String) (x : Float) (d : Dict String Float)
    → elem c (keys (insert k x d)) ≡ (if k == c then true else elem c (keys d))
unfolding insert
elem-keys-insert c k x [] = refl
elem-keys-insert c k x ((j, y) ∷ d) = ground (
  arith,
  str_key.equal_iff j k,
  str_key.equal_iff j c,
  str_key.equal_iff k c,
  elem-keys-insert c k x d,
)

one_more :
    (b : Bool) (c j : String) (x : Float) (d : Dict String Float) (rest : Bool)
    → (if elem c (keys (if b then insert j x d else d)) then true else rest)
      ≡ (if elem c (keys d) then true else if j == c then (if b then true else rest) else rest)
one_more true c j x d rest = ground (arith, elem-keys-insert c j x d)
one_more false c j x d rest = ground arith

module _ (A : Arithmetic) (S : Statistics) where
  elem-grouped :
      (test : String → Float → Bool) (raw d : Dict String Float) (other : Float) (c : String)
      → elem c (keys (grouped A S test raw d other).0)
        ≡ (if elem c (keys d) then true else passes test c raw)
  unfolding grouped
  elem-grouped test [] d other c = ground arith
  elem-grouped test ((j, x) ∷ raw) d other c =
      elem-grouped test raw _ _ c ∙ one_more (test j x) c j x d (passes test c raw)

  pub grouped_same :
      (t u : String → Float → Bool) (raw d : Dict String Float) (other : Float)
      → All (λ e. u e.0 e.1 ≡ t e.0 e.1) raw
      → grouped A S u raw d other ≡ grouped A S t raw d other
  unfolding grouped
  grouped_same t u [] d other h = refl
  grouped_same t u ((j, x) ∷ raw) d other h = elim (Bool-cases (t j x)) [
    | inl passed ↦ rw (h.0, passed) (grouped_same t u raw (insert j x d) other h.1)
    | inr failed ↦ rw (h.0, failed) (grouped_same t u raw d (A.add other x) h.1)
  ]

  elem-with_other :
      (p : Dict String Float × Float) (c : String)
      → (c == other_label) ≡ false
      → elem c (keys (with_other A S p)) ≡ elem c (keys p.0)
  unfolding with_other
  elem-with_other (d, other) c h = ground (
    arith,
    elem-keys-insert c other_label other d,
    str_key.equal_iff c other_label,
    str_key.equal_iff other_label c,
  )

  pub agree :
      (test : String → Float → Bool) (raw part : Dict String Float)
      → All (λ (e : String × Float). (e.0 == other_label) ≡ false) part
      → All (λ e. passes test e.0 raw ≡ test e.0 e.1) part
      → All
          (λ e.
            elem e.0 (kept_categories A S (with_other A S (grouped A S test raw [] zero_float)))
            ≡ test e.0 e.1)
          part
  unfolding kept_categories
  agree test raw [] h k = tt
  agree test raw ((c, x) ∷ part) h k = (
    elem-without c (keys (with_other A S (grouped A S test raw [] zero_float))) (other_label ∷ [])
        ∙ rw
            (
              elem-with_other (grouped A S test raw [] zero_float) c h.0,
              elem-grouped test raw [] zero_float c,
              k.0,
            )
            (ground (arith, h.0, str_key.equal_iff c other_label, str_key.equal_iff other_label c)),
    agree test raw part h.1 k.1,
  )
