-- ===== src/Evaluation/Operational/Budget.antt =====
-- A budget marks as many rows as it states, and captures no more frauds than that or than there are.
use real_time_risk_fraud_eng.Prelude.{
  ℕ, zero, suc, ◌+◌, ◌-◌, ◌≤◌, ◌<◌, ◌≡◌, refl, ap, ◌∙◌, Bool, true, false, List, [], ◌∷◌, length,
  eqb, count, All, arith, inl, inr, Bool-cases,
}
use real_time_risk_fraud_eng.Prelude.Keys.{int_key, ◌==◌}
use real_time_risk_fraud_eng.Prelude.Distinct.{elem, Distinct}
use real_time_risk_fraud_eng.Result.{ok}
use real_time_risk_fraud_eng.Float.{Float, lt, le, zero_float, one_float, Arithmetic}
use real_time_risk_fraud_eng.Decision.Evaluation.{Ratio, ratio, fraud_total}
use real_time_risk_fraud_eng.Evaluation.Operational.{
  drop, last_of, mask_from, captured, n_selected, top_k_mask, captured_in, precision_at_k,
}

-- The places of the `n` entries of a list, each once.
pub record IsOrder (n : ℕ) (order : List ℕ) : Type 0 where
  pub distinct : Distinct order
  pub inside : All (λ i. i < n) order
  pub complete : length order ≡ n

-- 1 where a place is marked
abbrev marked : List Bool → ℕ
marked mask = count (λ b. b) mask

pub length-mask_from : (i n : ℕ) (top : List ℕ) → length (mask_from i n top) ≡ n
unfolding mask_from
length-mask_from i zero top = refl
length-mask_from i (suc n) top = omega (arith, length-mask_from (suc i) n top)

marked_empty : (i n : ℕ) → marked (mask_from i n []) ≡ 0
unfolding mask_from count
marked_empty i zero = refl
marked_empty i (suc n) = omega (arith, marked_empty (suc i) n)

-- A mark before the range does not show in it.
marked_before :
    (i n x : ℕ) (top : List ℕ)
    → x < i
    → marked (mask_from i n (x ∷ top)) ≡ marked (mask_from i n top)
unfolding mask_from count
marked_before i zero x top h = refl
marked_before i (suc n) x top h =
    ground (arith, int_key.equal_iff x i, marked_before (suc i) n x top)

-- One more place in the range is marked.
marked_more :
    (i n x : ℕ) (top : List ℕ)
    → i ≤ x
    → x < i + n
    → elem x top ≡ false
    → marked (mask_from i n (x ∷ top)) ≡ marked (mask_from i n top) + 1
unfolding mask_from count
marked_more i zero x top low high new = absurd (omega arith)
marked_more i (suc n) x top low high new = elim (Bool-cases (x == i)) [
  | inl here ↦ ground (arith, int_key.equal_iff x i, marked_before (suc i) n x top)
  | inr later ↦ ground (arith, int_key.equal_iff x i, marked_more (suc i) n x top)
]

marked-mask_from :
    (n : ℕ) (top : List ℕ)
    → Distinct top
    → All (λ i. i < n) top
    → marked (mask_from 0 n top) ≡ length top
marked-mask_from n [] d b = marked_empty 0 n
marked-mask_from n (x ∷ top) (new, d) (in_range, b) =
    marked_more 0 n x top (omega arith) (omega (arith, in_range)) new
    ∙ ap (λ k. k + 1) (marked-mask_from n top d b)
    ∙ omega arith

Distinct-drop : (n : ℕ) (xs : List ℕ) → Distinct xs → Distinct (drop n xs)
unfolding drop
Distinct-drop zero xs d = d
Distinct-drop (suc n) [] d = tt
Distinct-drop (suc n) (x ∷ xs) d = Distinct-drop n xs d.1

All-drop : (m n : ℕ) (xs : List ℕ) → All (λ i. i < m) xs → All (λ i. i < m) (drop n xs)
unfolding drop
All-drop m zero xs b = b
All-drop m (suc n) [] b = tt
All-drop m (suc n) (x ∷ xs) b = All-drop m n xs b.1

length-drop : (n : ℕ) (xs : List ℕ) → length (drop n xs) ≡ length xs - n
unfolding drop
length-drop zero xs = omega arith
length-drop (suc n) [] = omega arith
length-drop (suc n) (x ∷ xs) = omega (arith, length-drop n xs)

pub captured-le-marked : (ys mask : List Bool) → captured ys mask ≤ marked mask
unfolding captured count
captured-le-marked [] mask = omega arith
captured-le-marked (y ∷ ys) [] = omega arith
captured-le-marked (y ∷ ys) (m ∷ mask) = ground (arith, captured-le-marked ys mask)

pub captured-le-fraud_total : (ys mask : List Bool) → captured ys mask ≤ fraud_total ys
unfolding captured fraud_total count
captured-le-fraud_total [] mask = omega arith
captured-le-fraud_total (y ∷ ys) [] = omega arith
captured-le-fraud_total (y ∷ ys) (m ∷ mask) = ground (arith, captured-le-fraud_total ys mask)

-- With a label for each score, a budget in (0, 1] has a precision wherever the number of rows to select
-- is finite.
pub precision_at_k_returns :
    (A : Arithmetic) (argsort : List Float → List ℕ) (ys : List Bool) (scores : List Float)
    (k : Float) (n : ℕ)
    → length ys ≡ length scores
    → lt zero_float k ≡ true
    → le k one_float ≡ true
    → n_selected A argsort (length scores) k ≡ ok n
    → (x : Ratio) × (precision_at_k A argsort ys scores k ≡ ok x)
unfolding precision_at_k top_k_mask captured_in
precision_at_k_returns A argsort ys scores k n same positive share selects =
    let mask = mask_from 0 (length scores) (last_of n (argsort scores)) in
    let shape : eqb (length ys) (length mask) ≡ true =
      ground (arith, same, length-mask_from 0 (length scores) (last_of n (argsort scores))) in
    (ratio (captured ys mask) n, rw (positive, share, selects, shape) refl)

module _ (A : Arithmetic) (argsort : List Float → List ℕ) (ys : List Bool) (scores : List Float)
    (k : Float) (n : ℕ) (order : IsOrder (length scores) (argsort scores))
    (same : length ys ≡ length scores) (positive : lt zero_float k ≡ true)
    (share : le k one_float ≡ true) (selects : n_selected A argsort (length scores) k ≡ ok n) where
  abbrev mask : List Bool
  mask = mask_from 0 (length scores) (last_of n (argsort scores))

  pub mask_ok : top_k_mask A argsort scores k ≡ ok (mask, n)
  unfolding top_k_mask
  mask_ok = rw (positive, share, selects) refl

  -- The mask marks `n` rows, or all of them if there are fewer.
  pub marks_of_mask : marked mask ≡ length scores - (length scores - n)
  unfolding last_of
  marks_of_mask =
      marked-mask_from (length scores) (last_of n (argsort scores))
        (Distinct-drop (length (argsort scores) - n) (argsort scores) order.distinct)
        (All-drop (length scores) (length (argsort scores) - n) (argsort scores) order.inside)
      ∙ length-drop (length (argsort scores) - n) (argsort scores)
      ∙ omega (arith, order.complete)
