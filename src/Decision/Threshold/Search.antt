-- ===== src/Decision/Threshold/Search.antt =====
-- What the search for the block fraction finds, and what the policy is built from.
use real_time_risk_fraud_eng.Prelude.{
  ℕ, ◌≡◌, refl, sym, ap, subst, ◌∙◌, Bool, true, false, List, [], ◌∷◌, ◌&&◌, length, map, keep, any,
  All, ◌⊎◌, inl, inr, arith,
}
use real_time_risk_fraud_eng.Float.{Float, lt, le, zero_float, one_float, Arithmetic}
use real_time_risk_fraud_eng.Float.Order.{lt_irrefl, lt→le, lt_of_lt_of_le}
use real_time_risk_fraud_eng.Result.{Result, ok, err, bind_ok, ok_injective}
use real_time_risk_fraud_eng.Decision.Evaluation.{Ratio}
use real_time_risk_fraud_eng.Evaluation.Operational.{BudgetError, precision_at_k, n_selected}
use real_time_risk_fraud_eng.Evaluation.Operational.Budget.{precision_at_k_returns}
use real_time_risk_fraud_eng.Decision.Threshold.{
  Candidate, BlockSearch, budgeted, meets, largest_from, found, first_result, choose, nano, rounded,
  measured, derive_block_fraction_for_precision_target,
}

lt_asym : (x y : Float) → lt x y ≡ true → lt y x ≡ false
unfolding lt
lt_asym x y h = ground arith

largest_from_step :
    (b c : Candidate) (cs : List Candidate)
    → ((lt b.fraction c.fraction ≡ true) × (largest_from b (c ∷ cs) ≡ largest_from c cs))
      ⊎ ((lt b.fraction c.fraction ≡ false) × (largest_from b (c ∷ cs) ≡ largest_from b cs))
unfolding largest_from
largest_from_step b c cs = ground arith

-- What is not above a candidate is not above one that replaces it.
largest_from_above :
    (b : Candidate) (cs : List Candidate) (x : Float)
    → lt b.fraction x ≡ false
    → lt (largest_from b cs).fraction x ≡ false
unfolding largest_from
largest_from_above b [] x h = h
largest_from_above b (c ∷ cs) x h = ground (
  arith,
  largest_from_above c cs x,
  largest_from_above b cs x,
  lt_of_lt_of_le b.fraction c.fraction x,
  lt→le c.fraction x,
)

largest_from_of {ℓ} :
    (P : Candidate → Type ℓ) (b : Candidate) (cs : List Candidate)
    → P b
    → All P cs
    → P (largest_from b cs)
unfolding largest_from
largest_from_of P b [] h k = h
largest_from_of P b (c ∷ cs) h k = elim (largest_from_step b c cs) [
  | inl (above, is) ↦ subst P (sym is) (largest_from_of P c cs k.0 k.1)
  | inr (below, is) ↦ subst P (sym is) (largest_from_of P b cs h k.1)
]

-- No candidate is above the one that is chosen.
abbrev IsLargest : List Candidate → Candidate → Type 0
IsLargest cs b = All (λ c. lt b.fraction c.fraction ≡ false) cs

largest_from-IsLargest :
    (b : Candidate) (cs : List Candidate) → IsLargest (b ∷ cs) (largest_from b cs)
unfolding largest_from
largest_from-IsLargest b [] = (lt_irrefl b.fraction, tt)
largest_from-IsLargest b (c ∷ cs) = elim (largest_from_step b c cs) [
  | inl (above, is) ↦ subst (IsLargest (b ∷ c ∷ cs)) (sym is) (
    largest_from_above c cs b.fraction (lt_asym b.fraction c.fraction above),
    largest_from-IsLargest c cs,
  )
  | inr (below, is) ↦
      let m = largest_from-IsLargest b cs in
      subst (IsLargest (b ∷ c ∷ cs)) (sym is) (m.0, (largest_from_above b cs c.fraction below, m.1))
]

-- Where no kept element satisfies `q`, none satisfies both.
any_of_kept {ℓ} :
    {X : Type ℓ} (p q : X → Bool) (xs : List X)
    → All (λ x. q x ≡ false) (keep p xs)
    → any (λ x. p x && q x) xs ≡ false
unfolding keep
any_of_kept p q [] h = refl
any_of_kept p q (x ∷ xs) h = ground (arith, any_of_kept p q xs)

All-keep {ℓ κ} :
    {X : Type ℓ} (P : X → Type κ) (p : X → Bool) (xs : List X) → All P xs → All P (keep p xs)
unfolding keep
All-keep P p [] h = tt
All-keep P p (x ∷ xs) h = ground (arith, All-keep P p xs)

none_kept {ℓ} : {X : Type ℓ} (p : X → Bool) (xs : List X) → keep p xs ≡ [] → any p xs ≡ false
unfolding keep
none_kept p [] h = refl
none_kept p (x ∷ xs) h = ground (arith, none_kept p xs)

kept_all {ℓ} : {X : Type ℓ} (p : X → Bool) (xs : List X) → All (λ x. p x ≡ true) (keep p xs)
unfolding keep
kept_all p [] = tt
kept_all p (x ∷ xs) = ground (arith, kept_all p xs)

pub budgeted_ok {ℓ} : {X : Type ℓ} (r : Result BudgetError X) (x : X) → budgeted r ≡ ok x → r ≡ ok x
unfolding budgeted
budgeted_ok (ok y) x h = ap ok (ok_injective h)
budgeted_ok (err e) x h = ground arith

-- What `choose` says of the results, given what holds of each of them.
abbrev pub IsChoice : Float → List Candidate → BlockSearch → Type 0
IsChoice target results s =
    ((s.target_achieved ≡ true)
      × (le target s.achieved_precision ≡ true)
      × (any (λ c. meets target c && lt s.block_fraction c.fraction) results ≡ false))
    ⊎ ((s.target_achieved ≡ false)
        × (any (meets target) results ≡ false)
        × ((rest : List Float) × (map (λ c. c.fraction) results ≡ s.block_fraction ∷ rest)))

abbrev IsFound : (Candidate → Type 0) → Float → List Candidate → BlockSearch → Type 0
IsFound P target results s =
    P (record { fraction = s.block_fraction; precision = s.achieved_precision })
    × (s.all_candidates ≡ results)
    × IsChoice target results s

choose-IsFound :
    (P : Candidate → Type 0) (target : Float) (results meeting : List Candidate) (s : BlockSearch)
    → All P results
    → keep (meets target) results ≡ meeting
    → choose target results meeting ≡ ok s
    → IsFound P target results s
unfolding choose first_result found meets
choose-IsFound P target [] [] s h kept k = ground arith
choose-IsFound P target (c ∷ cs) [] s h kept k =
    subst (IsFound P target (c ∷ cs)) (ok_injective k) (
      h.0,
      refl,
      inr (refl, none_kept (meets target) (c ∷ cs) kept, (map (λ x. x.fraction) cs, refl)),
    )
choose-IsFound P target results (c ∷ meeting) s h kept k =
    let b = largest_from c meeting in
    let all_meet =
      subst (All (λ x. meets target x ≡ true)) kept (kept_all (meets target) results) in
    let all_P = subst (All P) kept (All-keep P (meets target) results h) in
    let biggest = subst (λ xs. IsLargest xs b) (sym kept) (largest_from-IsLargest c meeting) in
    subst (IsFound P target results) (ok_injective k) (
      largest_from_of P c meeting all_P.0 all_P.1,
      refl,
      inl (
        refl,
        largest_from_of (λ x. meets target x ≡ true) c meeting all_meet.0 all_meet.1,
        any_of_kept (meets target) (λ x. lt b.fraction x.fraction) results biggest,
      ),
    )

choose_returns :
    (target f : Float) (fs : List Float) (results meeting : List Candidate)
    → map (λ c. c.fraction) results ≡ f ∷ fs
    → (s : BlockSearch) × (choose target results meeting ≡ ok s)
unfolding choose first_result
choose_returns target f fs [] meeting h = absurd (ground arith)
choose_returns target f fs (c ∷ cs) [] h = (found target false (c ∷ cs) c, refl)
choose_returns target f fs (c ∷ cs) (d ∷ meeting) h =
    (found target true (c ∷ cs) (largest_from d meeting), refl)

module _ (A : Arithmetic) (argsort : List Float → List ℕ) (ys : List Bool)
    (scores : List Float) where
  -- The precision of the candidate is the one of its fraction.
  abbrev pub IsMeasured : Candidate → Type 0
  IsMeasured c =
      (x : Ratio) × (precision_at_k A argsort ys scores c.fraction ≡ ok x)
      × (c.precision ≡ rounded A x)

  abbrev pub IsMeasuredAt : List Float → List Candidate → Type 0
  IsMeasuredAt fs results = All IsMeasured results × (map (λ c. c.fraction) results ≡ fs)

  measured-IsMeasured :
      (fs : List Float) (results : List Candidate)
      → measured A argsort ys scores fs ≡ ok results
      → IsMeasuredAt fs results
  unfolding measured budgeted
  measured-IsMeasured [] results h = ground arith
  measured-IsMeasured (f ∷ fs) results h =
      let (x, measure, rest) =
        bind_ok (budgeted (precision_at_k A argsort ys scores f)) _ results h in
      let (more, others, last) = bind_ok (measured A argsort ys scores fs) _ results rest in
      let ih = measured-IsMeasured fs more others in
      subst (IsMeasuredAt (f ∷ fs)) (ok_injective last)
        (((x, budgeted_ok _ x measure, refl), ih.0), ap (λ gs. f ∷ gs) ih.1)

  searched :
      (arange : Float → Float → Float → List Float) (max_fraction target step : Float)
      (s : BlockSearch)
      → derive_block_fraction_for_precision_target A argsort arange ys scores max_fraction target
          step
        ≡ ok s
      → IsMeasured (record { fraction = s.block_fraction; precision = s.achieved_precision })
        × IsMeasuredAt (arange step (A.add max_fraction nano) step) s.all_candidates
        × IsChoice target s.all_candidates s
  unfolding derive_block_fraction_for_precision_target
  searched arange max_fraction target step s h =
      let grid = arange step (A.add max_fraction nano) step in
      let (results, all_measured, chosen) = bind_ok (measured A argsort ys scores grid) _ s h in
      let (each, fractions) = measured-IsMeasured grid results all_measured in
      let (own, same, choice) = choose-IsFound IsMeasured target results _ s each refl chosen in
      (
        own,
        subst (IsMeasuredAt grid) (sym same) (each, fractions),
        subst (λ cs. IsChoice target cs s) (sym same) choice,
      )

  -- A fraction in (0, 1] that selects a finite number of rows.
  abbrev pub IsFraction : Float → Type 0
  IsFraction f =
      (lt zero_float f ≡ true)
      × (le f one_float ≡ true)
      × ((n : ℕ) × (n_selected A argsort (length scores) f ≡ ok n))

  measured_returns :
      (fs : List Float)
      → length ys ≡ length scores
      → All IsFraction fs
      → (results : List Candidate) × (measured A argsort ys scores fs ≡ ok results)
  unfolding measured budgeted
  measured_returns [] same h = ([], refl)
  measured_returns (f ∷ fs) same h =
      let (positive, share, (n, selects)) = h.0 in
      let (x, precise) =
        precision_at_k_returns A argsort ys scores f n same positive share selects in
      let (more, others) = measured_returns fs same h.1 in
      (record { fraction = f; precision = rounded A x } ∷ more, rw (precise, others) refl)

  returns :
      (arange : Float → Float → Float → List Float) (max_fraction target step f : Float)
      (fs : List Float)
      → length ys ≡ length scores
      → arange step (A.add max_fraction nano) step ≡ f ∷ fs
      → All IsFraction (f ∷ fs)
      → (s : BlockSearch) × (derive_block_fraction_for_precision_target A argsort arange ys scores
            max_fraction target step
          ≡ ok s)
  unfolding derive_block_fraction_for_precision_target
  returns arange max_fraction target step f fs same grid fractions =
      let (results, all_measured) = measured_returns (f ∷ fs) same fractions in
      let (each, reported) = measured-IsMeasured (f ∷ fs) results all_measured in
      let (s, chosen) = choose_returns target f fs results (keep (meets target) results) reported in
      (s, rw (grid, all_measured) chosen)

  -- With a label for each score, and a grid of at least one fraction, all of them in (0, 1] and with a
  -- finite number of rows, the search returns. The candidates that it reports are the fractions of the grid
  -- in order, each with its measured precision, and it gives a fraction with its own measured precision.
  -- Either that precision meets the target, and no larger fraction of the grid meets it, or no fraction of
  -- the grid does and the first one of the grid is given.
  pub derive_block_fraction_for_precision_target-IsChoice :
      (arange : Float → Float → Float → List Float) (max_fraction target step f : Float)
      (fs : List Float)
      → length ys ≡ length scores
      → arange step (A.add max_fraction nano) step ≡ f ∷ fs
      → All IsFraction (f ∷ fs)
      → (s : BlockSearch) × (derive_block_fraction_for_precision_target A argsort arange ys scores
            max_fraction target step
          ≡ ok s)
        × IsMeasured (record { fraction = s.block_fraction; precision = s.achieved_precision })
        × IsMeasuredAt (f ∷ fs) s.all_candidates
        × IsChoice target s.all_candidates s
  derive_block_fraction_for_precision_target-IsChoice arange max_fraction target step f fs same grid
        fractions =
      let (s, found_it) = returns arange max_fraction target step f fs same grid fractions in
      let (own, reported, choice) = searched arange max_fraction target step s found_it in
      (s, found_it, own, (reported.0, reported.1 ∙ grid), choice)
