-- ===== src/Governance/Gates/Verdict.antt =====
-- `aggregate_gate_results` against the rule that the module states for it.
use real_time_risk_fraud_eng.Prelude.{
  ◌+◌, ◌≡◌, refl, Bool, true, false, String, List, [], ◌∷◌, map, keep, if◌then◌else◌, length, arith,
  count, any, All,
}
use real_time_risk_fraud_eng.Prelude.Lists.{length-keep}
use real_time_risk_fraud_eng.Governance.Gates.{
  Gate, GateResult, pass, fail, requires_review, Recommendation, promote, reject, ask_review,
  is_pass, is_fail, is_review, gates_with, recommend, aggregate_gate_results,
}

-- The stated rule: any FAIL rejects, else any REQUIRES_REVIEW asks for review, else promote.
pub stated_rule : List Gate → Recommendation
stated_rule gs =
    if any (λ g. is_fail g.result) gs
    then reject
    else if any (λ g. is_review g.result) gs
    then ask_review
    else promote

length-map : {A B : Type 0} (f : A → B) (xs : List A) → length (map f xs) ≡ length xs
length-map f [] = refl
length-map f (x ∷ xs) = omega (arith, length-map f xs)

length-gates_with :
    (p : GateResult → Bool) (gs : List Gate) → length (gates_with p gs) ≡ count (λ g. p g.result) gs
unfolding gates_with
length-gates_with p gs = ground (
  arith,
  length-map (λ (g : Gate). g.gate) (keep (λ g. p g.result) gs),
  length-keep (λ (g : Gate). p g.result) gs,
)

one_of_three :
    (r : GateResult)
    → (if is_fail r then 1 else 0) + (if is_review r then 1 else 0) + (if is_pass r then 1 else 0)
      ≡ 1
unfolding is_fail is_review is_pass
one_of_three pass = refl
one_of_three fail = refl
one_of_three requires_review = refl

three_counts :
    (gs : List Gate)
    → count (λ g. is_fail g.result) gs
        + count (λ g. is_review g.result) gs
        + count (λ g. is_pass g.result) gs
      ≡ length gs
unfolding count
three_counts [] = refl
three_counts (g ∷ gs) = omega (arith, one_of_three g.result, three_counts gs)

abbrev is_cons : List String → Bool
is_cons [] = false
is_cons (x ∷ xs) = true

recommend_lem :
    (fs rs : List String)
    → (recommend fs rs).0
      ≡ (if is_cons fs then reject else if is_cons rs then ask_review else promote)
unfolding recommend
recommend_lem (f ∷ fs) rs = refl
recommend_lem [] (r ∷ rs) = refl
recommend_lem [] [] = refl

is_cons-gates_with :
    (p : GateResult → Bool) (gs : List Gate) → is_cons (gates_with p gs) ≡ any (λ g. p g.result) gs
unfolding gates_with keep
is_cons-gates_with p [] = refl
is_cons-gates_with p (g ∷ gs) = ground (arith, is_cons-gates_with p gs)

-- The recommendation follows the stated rule, and the lengths of the three lists of gates add up
-- to the number of gates.
pub aggregate_gate_results-eq-stated_rule :
    (gs : List Gate)
    → ((aggregate_gate_results gs).recommendation ≡ stated_rule gs)
      × (length (aggregate_gate_results gs).failed_gates
            + length (aggregate_gate_results gs).review_gates
            + length (aggregate_gate_results gs).passed_gates
          ≡ length gs)
unfolding aggregate_gate_results stated_rule
aggregate_gate_results-eq-stated_rule gs = (
  ground (
    arith,
    recommend_lem (gates_with is_fail gs) (gates_with is_review gs),
    is_cons-gates_with is_fail gs,
    is_cons-gates_with is_review gs,
  ),
  omega (
    arith,
    three_counts gs,
    length-gates_with is_fail gs,
    length-gates_with is_review gs,
    length-gates_with is_pass gs,
  ),
)

pub stated_rule-promote :
    (gs : List Gate) → stated_rule gs ≡ promote → All (λ g. g.result ≡ pass) gs
unfolding stated_rule is_fail is_review
stated_rule-promote [] h = tt
stated_rule-promote (g ∷ gs) h =
    elim g.result as (λ x. g.result ≡ x → All (λ k. k.result ≡ pass) (g ∷ gs)) [
      | pass ↦ λ e. (e, stated_rule-promote gs (ground arith))
      | fail ↦ λ e. ground arith
      | requires_review ↦ λ e. ground arith
    ]
      refl

pub promote-stated_rule :
    (gs : List Gate) → All (λ g. g.result ≡ pass) gs → stated_rule gs ≡ promote
unfolding stated_rule is_fail is_review
promote-stated_rule [] h = refl
promote-stated_rule (g ∷ gs) (here, rest) = ground (arith, promote-stated_rule gs rest)
