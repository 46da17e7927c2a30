-- ===== src/Evaluation/Operational/Ranking.antt =====
-- The rows that a budget selects are the ones with the highest scores.
use real_time_risk_fraud_eng.Prelude.{
  ℕ, zero, suc, ◌+◌, ◌-◌, ◌<◌, ◌≤◌, ◌≡◌, refl, ap, subst, ◌∙◌, Bool, true, false, not, List, [],
  ◌∷◌, map, length, leb, eqb, count, All, arith, inl, inr, Bool-cases, if◌then◌else◌,
}
use real_time_risk_fraud_eng.Prelude.Keys.{int_key, ◌==◌}
use real_time_risk_fraud_eng.Prelude.Distinct.{elem}
use real_time_risk_fraud_eng.Result.{ok}
use real_time_risk_fraud_eng.Float.{Float, nan, lt, le, zero_float, one_float, Arithmetic}
use real_time_risk_fraud_eng.Decision.Evaluation.{fraud_total}
use real_time_risk_fraud_eng.Decision.Threshold.{selected}
use real_time_risk_fraud_eng.Evaluation.Operational.{
  drop, last_of, mask_from, captured, n_selected, fixed_budget_report, budget_report, captured_in,
}
use real_time_risk_fraud_eng.Evaluation.Operational.Budget.{
  IsOrder, length-mask_from, mask_ok, marks_of_mask, captured-le-marked, captured-le-fraud_total,
}

abbrev pub score_at : List Float → ℕ → Float
score_at [] i = nan
score_at (x ∷ xs) zero = x
score_at (x ∷ xs) (suc i) = score_at xs i

-- No later place of the order has a smaller score.
abbrev pub IsAscending : List Float → List ℕ → Type 0
IsAscending scores [] = Unit {0}
IsAscending scores (i ∷ order) =
    All (λ j. lt (score_at scores j) (score_at scores i) ≡ false) order × IsAscending scores order

-- What NumPy documents of `argsort`: every row once, by ascending scores.
pub record IsSorting (scores : List Float) (order : List ℕ) : Type 0 where
  pub places : IsOrder (length scores) order
  pub covers : (i : ℕ) → i < length scores → elem i order ≡ true
  pub ascending : IsAscending scores order

All-elem {ℓ} : (P : ℕ → Type ℓ) (i : ℕ) (xs : List ℕ) → All P xs → elem i xs ≡ true → P i
All-elem P i [] h k = absurd (ground arith)
All-elem P i (x ∷ xs) h k = elim (Bool-cases (x == i)) [
  | inl here ↦ subst P ((int_key.equal_iff x i).0 here) h.0
  | inr later ↦ All-elem P i xs h.1 (ground arith)
]

elem-drop : (i m : ℕ) (xs : List ℕ) → elem i (drop m xs) ≡ true → elem i xs ≡ true
unfolding drop
elem-drop i zero xs h = h
elem-drop i (suc m) [] h = h
elem-drop i (suc m) (x ∷ xs) h = ground (arith, elem-drop i m xs)

-- What is dropped has no higher score than what stays.
drop_above :
    (scores : List Float) (order : List ℕ) (m i j : ℕ)
    → IsAscending scores order
    → elem i (drop m order) ≡ true
    → elem j order ≡ true
    → elem j (drop m order) ≡ false
    → lt (score_at scores i) (score_at scores j) ≡ false
unfolding drop
drop_above scores order zero i j a kept there dropped = ground (arith, there, dropped)
drop_above scores [] (suc m) i j a kept there dropped = ground arith
drop_above scores (x ∷ order) (suc m) i j a kept there dropped = elim (Bool-cases (x == j)) [
  | inl own ↦
      subst (λ y. lt (score_at scores i) (score_at scores y) ≡ false)
        ((int_key.equal_iff x j).0 own)
        (All-elem (λ y. lt (score_at scores y) (score_at scores x) ≡ false) i order a.0
          (elem-drop i m order kept))
  | inr other ↦ drop_above scores order m i j a.1 kept (ground arith) dropped
]

-- A property of the selected rows, from their places.
All-selected {ℓ} :
    (P : Float → Type ℓ) (q : Bool → Bool) (scores : List Float) (i : ℕ) (top : List ℕ)
    → ((j k : ℕ) → k ≡ i + j → j < length scores → q (elem k top) ≡ true → P (score_at scores j))
    → All P (selected scores (map q (mask_from i (length scores) top)))
unfolding selected mask_from
All-selected P q [] i top h = tt
All-selected P q (x ∷ xs) i top h =
    let rest =
      All-selected P q xs (suc i) top
        (λ j k e l t. h (suc j) k (omega (arith, e)) (omega (arith, l)) t) in
    elim (Bool-cases (q (elem i top))) [
      | inl taken ↦ rw taken (h zero i (omega arith) (omega arith) taken, rest)
      | inr left ↦ rw left rest
    ]

map_self : (bs : List Bool) → map (λ b. b) bs ≡ bs
map_self [] = refl
map_self (b ∷ bs) = ap (λ cs. b ∷ cs) (map_self bs)

-- No row that the mask leaves out has a higher score than one that it selects.
abbrev pub IsTop : List Float → List Bool → Type 0
IsTop scores mask =
    All (λ y. All (λ x. lt x y ≡ false) (selected scores mask)) (selected scores (map not mask))

last_of-IsTop :
    (scores : List Float) (order : List ℕ) (n : ℕ)
    → IsSorting scores order
    → IsTop scores (mask_from 0 (length scores) (last_of n order))
unfolding last_of
last_of-IsTop scores order n s =
    All-selected (λ y. All (λ x. lt x y ≡ false) (selected scores mask)) not scores 0 top
      (λ j k at in_range out.
        subst (λ bs. All (λ x. lt x (score_at scores j) ≡ false) (selected scores bs))
          (map_self mask)
          (All-selected (λ x. lt x (score_at scores j) ≡ false) (λ b. b) scores 0 top
            (λ i k' at' in_range' kept.
              drop_above scores order (length order - n) i j s.ascending
                (subst (λ x. elem x top ≡ true) (at' ∙ omega arith) kept) (s.covers j in_range)
                (subst (λ x. elem x top ≡ false) (at ∙ omega arith) (ground (arith, out))))))
  where
    top : List ℕ
    top = drop (length order - n) order

    mask : List Bool
    mask = mask_from 0 (length scores) top

module _ (A : Arithmetic) (argsort : List Float → List ℕ) (ys : List Bool) (scores : List Float)
    (k : Float) (n : ℕ) (sorts : IsSorting scores (argsort scores))
    (same : length ys ≡ length scores) (positive : lt zero_float k ≡ true)
    (share : le k one_float ≡ true) (selects : n_selected A argsort (length scores) k ≡ ok n) where
  -- With an `argsort` that sorts, a label for each score, a budget in (0, 1] and `n` rows to select, the
  -- report returns, and it is about a review of `n` rows, or of all if there are fewer: no row that is not
  -- reviewed has a higher score than a reviewed one. The frauds that it gives as captured are those of the
  -- reviewed rows, at most `n` and at most all frauds.
  pub fixed_budget_report-IsTop :
      (mask : List Bool) × (fixed_budget_report A argsort ys scores k
        ≡ ok (budget_report ys k n (captured ys mask)))
      × (length mask ≡ length scores)
      × (count (λ b. b) mask ≡ (if leb n (length scores) then n else length scores))
      × IsTop scores mask
      × (captured ys mask ≤ fraud_total ys)
      × (captured ys mask ≤ n)
  unfolding fixed_budget_report captured_in
  fixed_budget_report-IsTop =
      let mask = mask_from 0 (length scores) (last_of n (argsort scores)) in
      let size = length-mask_from 0 (length scores) (last_of n (argsort scores)) in
      let marks = marks_of_mask A argsort ys scores k n sorts.places same positive share selects in
      let shape : eqb (length ys) (length mask) ≡ true = ground (arith, same, size) in
      (
        mask,
        rw (mask_ok A argsort ys scores k n sorts.places same positive share selects, shape) refl,
        size,
        ground (arith, marks),
        last_of-IsTop scores (argsort scores) n sorts,
        captured-le-fraud_total ys mask,
        omega (arith, captured-le-marked ys mask, marks),
      )
