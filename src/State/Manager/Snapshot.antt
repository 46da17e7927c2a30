-- ===== src/State/Manager/Snapshot.antt =====
-- Saving the state and loading it again (`serialize`, `load_serialized`) over the in-memory backend.
use real_time_risk_fraud_eng.Prelude.{
  ◌≡◌, refl, sym, ap, ◌∙◌, false, String, Option, some, List, [], ◌∷◌, ◌++◌, arith,
}
use real_time_risk_fraud_eng.Prelude.Keys.{Hashable, Dict}
use real_time_risk_fraud_eng.Prelude.Distinct.{
  keys, elem, elem-append, Distinct, insert_new, lookup_of_elem, keys-append,
}
use real_time_risk_fraud_eng.Result.{ok}
use real_time_risk_fraud_eng.Float.{Arithmetic}
use real_time_risk_fraud_eng.State.Entity.{EntityState}
use real_time_risk_fraud_eng.State.Backend.{StateDict, in_memory, to_dict, from_dict}
use real_time_risk_fraud_eng.State.Manager.{serialize, load_serialized, load_all, dicts}

module _ {K : Type 0} ⦃e : Hashable K⦄ (A : Arithmetic) (show : K → String)
    (read : String → Option K) (reads : (k : K) → read (show k) ≡ some k) where
  append_assoc :
      (xs : Dict K EntityState) (x : K × EntityState) (ys : Dict K EntityState)
      → (xs ++ x ∷ []) ++ ys ≡ xs ++ x ∷ ys
  append_assoc [] x ys = refl
  append_assoc (y ∷ xs) x ys = ap (λ l. y ∷ l) (append_assoc xs x ys)

  append_nil : (xs : Dict K EntityState) → xs ++ [] ≡ xs
  append_nil [] = refl
  append_nil (x ∷ xs) = ap (λ l. x ∷ l) (append_nil xs)

  -- No key of the rest is among those that are loaded.
  abbrev Apart : Dict K EntityState → Dict K EntityState → Type 0
  Apart acc [] = Unit
  Apart acc ((k, s) ∷ d) = (elem k (keys acc) ≡ false) × Apart acc d

  Apart-more :
      (acc d : Dict K EntityState) (k : K) (s : EntityState)
      → elem k (keys d) ≡ false
      → Apart acc d
      → Apart (acc ++ (k, s) ∷ []) d
  Apart-more acc [] k s h a = tt
  Apart-more acc ((j, x) ∷ d) k s h a = ground (
    arith,
    keys-append acc ((k, s) ∷ []),
    elem-append j (keys acc) (k ∷ []),
    e.equal_iff j k,
    e.equal_iff k j,
    Apart-more acc d k s,
  )

  Apart-empty : (d : Dict K EntityState) → Apart [] d
  Apart-empty [] = tt
  Apart-empty ((k, s) ∷ d) = (refl, Apart-empty d)

  load_all-dicts :
      (acc d : Dict K EntityState)
      → Distinct (keys d)
      → Apart acc d
      → load_all A in_memory read (dicts A in_memory show d) acc ≡ (ok tt, acc ++ d)
  unfolding load_all dicts in_memory from_dict to_dict
  load_all-dicts acc [] dist apart = ap (λ l. (ok tt, l)) (sym (append_nil acc))
  load_all-dicts acc ((k, s) ∷ d) dist apart =
      let more =
        load_all-dicts (acc ++ (k, s) ∷ []) d dist.1 (Apart-more acc d k s dist.0 apart.1) in
      rw (reads k, insert_new k s acc (lookup_of_elem k acc apart.0))
        (more ∙ ap (λ l. (ok tt, l)) (append_assoc acc (k, s) d))

  -- Over the in-memory backend, with distinct keys and a text of the keys that reads back, what
  -- `serialize` returns, loaded into any store, gives exactly the states that were saved, in
  -- their order; what the store held before is gone.
  pub load_serialized-serialize :
      (d before : Dict K EntityState) (saved : List (String × StateDict))
      → Distinct (keys d)
      → (serialize A in_memory show d).0 ≡ ok saved
      → load_serialized A in_memory read saved before ≡ (ok tt, d)
  unfolding serialize load_serialized in_memory
  load_serialized-serialize d before saved dist h =
      let same : saved ≡ dicts A in_memory show d = ground arith in
      rw same (load_all-dicts [] d dist (Apart-empty d))
