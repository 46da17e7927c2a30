-- ===== src/Streaming/Handler/Cache.antt =====
-- The idempotency cache of the handler: the dict and the list hold the same ids in the same order.
use real_time_risk_fraud_eng.Prelude.{
  ℕ, ◌+◌, ◌≤◌, ◌≡◌, refl, false, none, some, List, [], ◌∷◌, ◌++◌, arith, length, ltb, inl, inr,
  Bool-cases, Option-cases,
}
use real_time_risk_fraud_eng.Prelude.Lists.{length-append}
use real_time_risk_fraud_eng.Prelude.Keys.{Hashable, Dict, lookup, insert, equal_refl}
use real_time_risk_fraud_eng.Prelude.Distinct.{
  keys, elem, Distinct, keys-insert_new, keys-erase_first, Distinct-snoc, elem-keys,
}
use real_time_risk_fraud_eng.Result.{Result, ok, err}
use real_time_risk_fraud_eng.Streaming.Handler.{
  HandlerState, HandlerParts, evict, remember, settle, handle,
}

-- The cache is consistent and bounded.
pub record IsCache {N R S P : Type 0} ⦃e : Hashable N⦄ (bound : ℕ) (h : HandlerState N R S P)
    : Type 0 where
  pub same_ids : keys h.seen ≡ h.seen_order
  pub distinct : Distinct h.seen_order
  pub bounded : length h.seen_order ≤ bound

module _ {T N R S P E : Type 0} ⦃e : Hashable N⦄ (parts : HandlerParts T N R S P E) where
  -- Eviction on a list that is one too long at most.
  evict_lem :
      (order : List N) (d : Dict N R)
      → keys d ≡ order
      → Distinct order
      → length order ≤ parts.cache_size + 1
      → let (order', d') = evict parts order d in
        (keys d' ≡ order') × Distinct order' × (length order' ≤ parts.cache_size)
  unfolding evict
  evict_lem [] d same dist len = (same, tt, omega arith)
  evict_lem (i ∷ is) [] same dist len = cc
  evict_lem (i ∷ is) ((j, r) ∷ d) same dist len =
      elim (Bool-cases (ltb parts.cache_size (length (i ∷ is)))) [
        | inl long ↦ ground (arith, equal_refl j, e.equal_iff j i, keys-erase_first j r d)
        | inr short ↦ ground arith
      ]

  remember-IsCache :
      (i : N) (r : R) (h : HandlerState N R S P)
      → lookup i h.seen ≡ none
      → IsCache parts.cache_size h
      → IsCache parts.cache_size (remember parts i r h)
  unfolding remember
  remember-IsCache i r h new c =
      let order : List N = h.seen_order ++ i ∷ [] in
      let ids : keys (insert i r h.seen) ≡ order =
        rw (keys-insert_new i r h.seen new, c.same_ids) refl in
      let apart : elem i h.seen_order ≡ false = rw c.same_ids at (elem-keys i h.seen new) in
      let (same, dist, len) =
        evict_lem order (insert i r h.seen) ids (Distinct-snoc i h.seen_order apart c.distinct)
          (omega (arith, length-append h.seen_order (i ∷ []), c.bounded)) in
      record { same_ids = same; distinct = dist; bounded = len }

  -- A message whose id is in the cache is answered from it.
  pub handle_cached :
      (t : T) (i : N) (r : R) (h : HandlerState N R S P)
      → parts.id_of t ≡ some i
      → lookup i h.seen ≡ some r
      → handle parts t h ≡ (ok r, record h { duplicates_skipped = h.duplicates_skipped + 1 })
  unfolding handle
  handle_cached t i r h named found = rw (named, found)

  pub handle_new :
      (t : T) (i : N) (h : HandlerState N R S P)
      → parts.id_of t ≡ some i
      → lookup i h.seen ≡ none
      → handle parts t h ≡ settle parts t (parts.engine t h.engine) h
  unfolding handle
  handle_new t i h named absent = rw (named, absent)

  handle_unnamed :
      (t : T) (h : HandlerState N R S P)
      → parts.id_of t ≡ none
      → handle parts t h ≡ settle parts t (parts.engine t h.engine) h
  unfolding handle
  handle_unnamed t h named = rw named

  -- The cache after the engine's call: the result of a named message is remembered.
  pub settle_named :
      (t : T) (i : N) (r : R) (s : S) (h : HandlerState N R S P)
      → parts.id_of t ≡ some i
      → let h' = (settle parts t (ok r, s) h).1 in
        let m = remember parts i r h in
        (h'.seen ≡ m.seen) × (h'.seen_order ≡ m.seen_order) × (h'.engine ≡ s)
  unfolding settle remember
  settle_named t i r s h named = rw named (refl, refl, refl)

  settle_unnamed :
      (t : T) (r : R) (s : S) (h : HandlerState N R S P)
      → parts.id_of t ≡ none
      → let h' = (settle parts t (ok r, s) h).1 in
        (h'.seen ≡ h.seen) × (h'.seen_order ≡ h.seen_order)
  unfolding settle
  settle_unnamed t r s h named = rw named (refl, refl)

  settle_raised :
      (t : T) (x : E) (s : S) (h : HandlerState N R S P)
      → let h' = (settle parts t (err x, s) h).1 in
        (h'.seen ≡ h.seen) × (h'.seen_order ≡ h.seen_order)
  unfolding settle
  settle_raised t x s h = (refl, refl)

  IsCache-same :
      (h h' : HandlerState N R S P)
      → h'.seen ≡ h.seen
      → h'.seen_order ≡ h.seen_order
      → IsCache parts.cache_size h
      → IsCache parts.cache_size h'
  IsCache-same h h' p q c = record {
    same_ids = rw (p, q) c.same_ids;
    distinct = rw q c.distinct;
    bounded = rw q c.bounded;
  }

  settle-IsCache :
      (t : T) (a : Result E R × S) (h : HandlerState N R S P)
      → ((i : N) → parts.id_of t ≡ some i → lookup i h.seen ≡ none)
      → IsCache parts.cache_size h
      → IsCache parts.cache_size (settle parts t a h).1
  settle-IsCache t (err x, s) h new c = let (p, q) = settle_raised t x s h in IsCache-same h _ p q c
  settle-IsCache t (ok r, s) h new c = elim (Option-cases (parts.id_of t)) [
    | inl unnamed ↦ let (p, q) = settle_unnamed t r s h unnamed in IsCache-same h _ p q c
    | inr (i, named) ↦
        let (p, q, _) = settle_named t i r s h named in
        IsCache-same (remember parts i r h) _ p q (remember-IsCache i r h (new i named) c)
  ]

  -- From a consistent cache, whatever the message and the engine do, the cache stays consistent:
  -- the dict has exactly the ids of the list, in its order, none twice, and never more than
  -- `cache_size` of them.
  pub handle-IsCache :
      (t : T) (h : HandlerState N R S P)
      → IsCache parts.cache_size h
      → IsCache parts.cache_size (handle parts t h).1
  handle-IsCache t h c = elim (Option-cases (parts.id_of t)) [
    | inl unnamed ↦
        rw (handle_unnamed t h unnamed) (settle-IsCache t _ h (λ i named. cc (unnamed, named)) c)
    | inr (i, named) ↦ elim (Option-cases (lookup i h.seen)) [
      | inl absent ↦
          rw (handle_new t i h named absent)
            (settle-IsCache t _ h (λ j again. cc (named, again, absent)) c)
      | inr (r, found) ↦ rw (handle_cached t i r h named found) (IsCache-same h _ refl refl c)
    ]
  ]
