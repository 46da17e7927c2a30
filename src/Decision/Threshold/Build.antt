-- ===== src/Decision/Threshold/Build.antt =====
-- What the policy that is built from validation data holds.
use real_time_risk_fraud_eng.Prelude.{
  ℕ, ◌≡◌, refl, sym, ap, subst, Bool, false, String, List, [], ◌∷◌, not, any, arith, ◌∙◌, ◌⊎◌, inl,
  inr,
}
use real_time_risk_fraud_eng.Float.{Float, is_nan, lt, le, min, Arithmetic}
use real_time_risk_fraud_eng.Float.Order.{lt_irrefl}
use real_time_risk_fraud_eng.Value.{Number, float, number}
use real_time_risk_fraud_eng.Result.{Result, ok, err, bind_ok, ok_injective, raise_if}
use real_time_risk_fraud_eng.Decision.Policy.{Policy, PolicyError, construct}
use real_time_risk_fraud_eng.Decision.Policy.Validity.{IsValid, construct-IsValid}
use real_time_risk_fraud_eng.Evaluation.Operational.{top_k_mask}
use real_time_risk_fraud_eng.Decision.Threshold.Search.{budgeted_ok}
use real_time_risk_fraud_eng.Decision.Threshold.{
  Diagnostics, assertion_failed, budgeted, constructed, selected, np_min, lowest_from, lowest,
  score_at_top_fraction, derive_block_fraction_for_precision_target, build_policy_from_validation,
}

lt-np_min_right : (x y : Float) → lt y (np_min x y) ≡ false
unfolding np_min min lt is_nan
lt-np_min_right x y = ground arith

lt-np_min_left : (s x y : Float) → lt s x ≡ false → lt s (np_min x y) ≡ false
unfolding np_min min lt is_nan
lt-np_min_left s x y h = ground arith

lt-lowest_from : (s x : Float) (ys : List Float) → lt s x ≡ false → lt s (lowest_from x ys) ≡ false
unfolding lowest_from
lt-lowest_from s x [] h = h
lt-lowest_from s x (y ∷ ys) h = lt-lowest_from s (np_min x y) ys (lt-np_min_left s x y h)

none_below_from : (x : Float) (ys : List Float) → any (λ s. lt s (lowest_from x ys)) ys ≡ false
unfolding lowest_from
none_below_from x [] = refl
none_below_from x (y ∷ ys) =
    ground (
      arith,
      lt-lowest_from y (np_min x y) ys (lt-np_min_right x y),
      none_below_from (np_min x y) ys,
    )

none_below : (xs : List Float) (t : Float) → lowest xs ≡ ok t → any (λ s. lt s t) xs ≡ false
unfolding lowest
none_below [] t h = ground arith
none_below (x ∷ xs) t h =
    subst (λ u. any (λ s. lt s u) (x ∷ xs) ≡ false) (ok_injective h)
      (ground (arith, lt-lowest_from x x xs (lt_irrefl x), none_below_from x xs))

IsIn-np_min : (x y : Float) → (np_min x y ≡ x) ⊎ (np_min x y ≡ y)
unfolding np_min min
IsIn-np_min x y = ground arith

-- The value is one of the list.
abbrev pub IsIn : Float → List Float → Type 0
IsIn t [] = ⊥
IsIn t (x ∷ xs) = (t ≡ x) ⊎ IsIn t xs

IsIn-lowest_from : (x : Float) (ys : List Float) → IsIn (lowest_from x ys) (x ∷ ys)
unfolding lowest_from
IsIn-lowest_from x [] = inl refl
IsIn-lowest_from x (y ∷ ys) = elim (IsIn-np_min x y) [
  | inl left ↦ elim (IsIn-lowest_from (np_min x y) ys) [
    | inl least ↦ inl (least ∙ left)
    | inr later ↦ inr (inr later)
  ]
  | inr right ↦ elim (IsIn-lowest_from (np_min x y) ys) [
    | inl least ↦ inr (inl (least ∙ right))
    | inr later ↦ inr (inr later)
  ]
]

lowest-IsIn : (xs : List Float) (t : Float) → lowest xs ≡ ok t → IsIn t xs
unfolding lowest
lowest-IsIn [] t h = ground arith
lowest-IsIn (x ∷ xs) t h = subst (λ u. IsIn u (x ∷ xs)) (ok_injective h) (IsIn-lowest_from x xs)

number_injective : {x y : Number} → number x ≡ number y → x ≡ y
number_injective h = cc

constructed_ok : (r : Result PolicyError Policy) (p : Policy) → constructed r ≡ ok p → r ≡ ok p
unfolding constructed
constructed_ok (ok q) p h = ap ok (ok_injective h)
constructed_ok (err e) p h = ground arith

module _ (A : Arithmetic) (argsort : List Float → List ℕ) (scores : List Float) where
  -- `t` is the score of a row of the top fraction `k`, and none of these rows has a score below it.
  abbrev pub IsCut : Float → Float → Type 0
  IsCut k t =
      (mask : List Bool) × (n : ℕ) × (top_k_mask A argsort scores k ≡ ok (mask, n))
      × IsIn t (selected scores mask)
      × (any (λ s. lt s t) (selected scores mask) ≡ false)

  score_at_top_fraction-IsCut :
      (k t : Float) → score_at_top_fraction A argsort scores k ≡ ok t → IsCut k t
  unfolding score_at_top_fraction
  score_at_top_fraction-IsCut k t h =
      let (top, masked, least) = bind_ok (budgeted (top_k_mask A argsort scores k)) _ t h in
      (
        top.0,
        top.1,
        budgeted_ok _ top masked,
        lowest-IsIn (selected scores top.0) t least,
        none_below (selected scores top.0) t least,
      )

  abbrev pub IsDerived : Policy × Diagnostics → Type 0
  IsDerived built =
      IsValid built.0
      × (built.0.approve_at ≡ float built.1.approve_threshold)
      × (built.0.block_at ≡ float built.1.block_threshold)
      × IsCut built.1.review_capacity_target built.1.approve_threshold
      × IsCut built.1.block_fraction_selected built.1.block_threshold

  -- A policy that is built is valid and has the two thresholds that are reported. The one is the score of a
  -- row of the top fraction of the review capacity, and no row of that fraction has a score below it; so is
  -- the other for the top fraction that is reported for BLOCK.
  pub build_policy_from_validation-IsDerived :
      (arange : Float → Float → Float → List Float) (ys : List Bool) (capacity target : Float)
      (name : String) (step : Float) (built : Policy × Diagnostics)
      → build_policy_from_validation A argsort arange ys scores capacity target name step ≡ ok built
      → IsDerived built × (built.1.review_capacity_target ≡ capacity)
  unfolding build_policy_from_validation
  build_policy_from_validation-IsDerived arange ys capacity target name step built h =
      let (a, first, h1) = bind_ok (score_at_top_fraction A argsort scores capacity) _ built h in
      let (s, search, h2) =
        bind_ok
          (derive_block_fraction_for_precision_target A argsort arange ys scores capacity target
            step)
          _ built h1 in
      let (b, second, h3) =
        bind_ok (score_at_top_fraction A argsort scores s.block_fraction) _ built h2 in
      let (u, guarded, h4) = bind_ok (raise_if (not (le a b)) assertion_failed) _ built h3 in
      let (q, made, h5) =
        bind_ok (constructed (construct (number (float a)) (number (float b)) name)) _ built h4 in
      let (valid, low, high, named) =
        construct-IsValid (number (float a)) (number (float b)) name q (constructed_ok _ q made) in
      subst (λ x. IsDerived x × (x.1.review_capacity_target ≡ capacity)) (ok_injective h5)
        (
          (
            valid,
            sym (number_injective low),
            sym (number_injective high),
            score_at_top_fraction-IsCut capacity a first,
            score_at_top_fraction-IsCut s.block_fraction b second,
          ),
          refl,
        )
