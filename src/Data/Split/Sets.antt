-- ===== src/Data/Split/Sets.antt =====
-- The sets of ids of parts of a list without repetition.
use real_time_risk_fraud_eng.Prelude.{◌≡◌, refl, true, List, [], ◌∷◌, ◌++◌, arith}
use real_time_risk_fraud_eng.Prelude.Keys.{Hashable}
use real_time_risk_fraud_eng.Prelude.Distinct.{Distinct, elem-append}
use real_time_risk_fraud_eng.Data.Split.{set_of, are_disjoint}

module _ {I : Type 0} ⦃e : Hashable I⦄ where
  pub set_of-Distinct : (is : List I) → Distinct is → set_of is ≡ is
  unfolding set_of
  set_of-Distinct [] d = refl
  set_of-Distinct (i ∷ is) d = rw (set_of-Distinct is d.1, d.0) refl

  pub Distinct-left : (is js : List I) → Distinct (is ++ js) → Distinct is
  Distinct-left [] js d = tt
  Distinct-left (i ∷ is) js d = ground (arith, elem-append i is js, Distinct-left is js d.1)

  pub Distinct-right : (is js : List I) → Distinct (is ++ js) → Distinct js
  Distinct-right [] js d = d
  Distinct-right (i ∷ is) js d = Distinct-right is js d.1

  pub disjoint_of_Distinct : (is js : List I) → Distinct (is ++ js) → are_disjoint is js ≡ true
  unfolding are_disjoint
  disjoint_of_Distinct [] js d = refl
  disjoint_of_Distinct (i ∷ is) js d =
      ground (arith, elem-append i is js, disjoint_of_Distinct is js d.1)

  pub Distinct-outer : (is js ks : List I) → Distinct (is ++ (js ++ ks)) → Distinct (is ++ ks)
  Distinct-outer [] js ks d = Distinct-right js ks d
  Distinct-outer (i ∷ is) js ks d = ground (
    arith,
    elem-append i is (js ++ ks),
    elem-append i js ks,
    elem-append i is ks,
    Distinct-outer is js ks d.1,
  )
