-- ===== src/Prelude/Distinct.antt =====
-- The keys of a dict in insertion order, and lists without repetition.
use mathlib.Core.Path.{◌≡◌, refl}
use mathlib.Core.Bool.{Bool, true, false}
use mathlib.Core.Option.{none}
use mathlib.Core.List.{List, [], ◌∷◌, ◌++◌}
use native.Mathlib.Omega.{arith}
use real_time_risk_fraud_eng.Prelude.Tests.{if◌then◌else◌}
use real_time_risk_fraud_eng.Prelude.Keys.{Hashable, Dict, ◌==◌, lookup, insert, erase, equal_refl}

module _ {N R : Type 0} where
  abbrev pub keys : Dict N R → List N
  keys [] = []
  keys ((i, r) ∷ d) = i ∷ keys d

module _ {N R : Type 0} ⦃e : Hashable N⦄ where
  -- A new key goes to the end.
  pub keys-insert_new :
      (i : N) (r : R) (d : Dict N R) → lookup i d ≡ none → keys (insert i r d) ≡ keys d ++ i ∷ []
  unfolding lookup insert
  keys-insert_new i r [] h = refl
  keys-insert_new i r ((j, x) ∷ d) h = ground (arith, keys-insert_new i r d)

  -- The oldest key is the first one.
  pub keys-erase_first : (i : N) (r : R) (d : Dict N R) → erase i ((i, r) ∷ d) ≡ d
  unfolding erase
  keys-erase_first i r d = ground (arith, equal_refl i)

-- No id twice.
module _ {N : Type 0} ⦃e : Hashable N⦄ where
  abbrev pub elem : N → List N → Bool
  elem i [] = false
  elem i (j ∷ js) = if j == i then true else elem i js

  abbrev pub Distinct : List N → Type 0
  Distinct [] = Unit
  Distinct (i ∷ is) = (elem i is ≡ false) × Distinct is

  pub elem-append :
      (i : N) (is js : List N) → elem i (is ++ js) ≡ (if elem i is then true else elem i js)
  elem-append i [] js = refl
  elem-append i (k ∷ is) js = ground (arith, elem-append i is js)

  pub Distinct-snoc :
      (i : N) (is : List N) → elem i is ≡ false → Distinct is → Distinct (is ++ i ∷ [])
  Distinct-snoc i [] h d = (refl, tt)
  Distinct-snoc i (k ∷ is) h d =
      ground
        (arith, elem-append k is (i ∷ []), e.equal_iff i k, e.equal_iff k i, Distinct-snoc i is)

module _ {N R : Type 0} ⦃e : Hashable N⦄ where
  pub elem-keys : (i : N) (d : Dict N R) → lookup i d ≡ none → elem i (keys d) ≡ false
  unfolding lookup
  elem-keys i [] h = refl
  elem-keys i ((j, x) ∷ d) h = ground (arith, elem-keys i d)

  -- A new key is appended with its value.
  pub insert_new :
      (i : N) (r : R) (d : Dict N R) → lookup i d ≡ none → insert i r d ≡ d ++ (i, r) ∷ []
  unfolding lookup insert
  insert_new i r [] h = refl
  insert_new i r ((j, x) ∷ d) h = ground (arith, insert_new i r d)

  pub lookup_of_elem : (i : N) (d : Dict N R) → elem i (keys d) ≡ false → lookup i d ≡ none
  unfolding lookup
  lookup_of_elem i [] h = refl
  lookup_of_elem i ((j, x) ∷ d) h = ground (arith, lookup_of_elem i d)

  pub keys-append : (d e : Dict N R) → keys (d ++ e) ≡ keys d ++ keys e
  keys-append [] e = refl
  keys-append ((j, x) ∷ d) e = ground (arith, keys-append d e)
