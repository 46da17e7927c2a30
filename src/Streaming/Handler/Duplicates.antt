-- ===== src/Streaming/Handler/Duplicates.antt =====
-- A message that is delivered again is answered from the cache, and the engine is not called.
use real_time_risk_fraud_eng.Prelude.{
  ◌+◌, ◌<◌, ◌≡◌, false, none, some, List, [], ◌∷◌, ◌++◌, arith, inl, inr, Option-cases, sym, ◌∙◌,
  ap,
}
use real_time_risk_fraud_eng.Prelude.Keys.{
  Hashable, Dict, lookup, insert, lookup-insert_self, lookup-erase_ne,
}
use real_time_risk_fraud_eng.Prelude.Distinct.{elem, elem-keys}
use real_time_risk_fraud_eng.Result.{Result, ok, err}
use real_time_risk_fraud_eng.Streaming.Handler.{
  HandlerState, HandlerParts, evict, remember, settle, handle,
}
use real_time_risk_fraud_eng.Streaming.Handler.Cache.{
  IsCache, handle_cached, handle_new, settle_named,
}

module _ {T N R S P E : Type 0} ⦃e : Hashable N⦄ (parts : HandlerParts T N R S P E) where
  -- Eviction keeps every id but the first of the list.
  lookup-evict :
      (i : N) (r : R) (order : List N) (d : Dict N R)
      → 0 < parts.cache_size
      → elem i order ≡ false
      → lookup i d ≡ some r
      → lookup i (evict parts (order ++ i ∷ []) d).1 ≡ some r
  unfolding evict
  lookup-evict i r [] d room apart found = ground arith
  lookup-evict i r (j ∷ js) d room apart found =
      ground (arith, e.equal_iff j i, lookup-erase_ne j i d)

  lookup-remember_self :
      (i : N) (r : R) (h : HandlerState N R S P)
      → 0 < parts.cache_size
      → IsCache parts.cache_size h
      → lookup i h.seen ≡ none
      → lookup i (remember parts i r h).seen ≡ some r
  unfolding remember
  lookup-remember_self i r h room c new =
      lookup-evict i r h.seen_order (insert i r h.seen) room
        (rw c.same_ids at (elem-keys i h.seen new)) (lookup-insert_self i r h.seen)

  settled :
      (t : T) (i : N) (r : R) (a : Result E R × S) (h : HandlerState N R S P)
      → 0 < parts.cache_size
      → IsCache parts.cache_size h
      → parts.id_of t ≡ some i
      → lookup i h.seen ≡ none
      → (settle parts t a h).0 ≡ ok r
      → lookup i (settle parts t a h).1.seen ≡ some r
  unfolding settle
  settled t i r (err x, s) h room c named new done = cc
  settled t i r (ok r', s) h room c named new done =
      let (seen, _, _) = settle_named parts t i r' s h named in
      rw seen (cc (lookup-remember_self i r' h room c new))

  -- What a call that returned has left in the cache.
  pub handle_remembers :
      (t : T) (i : N) (r : R) (h : HandlerState N R S P)
      → 0 < parts.cache_size
      → IsCache parts.cache_size h
      → parts.id_of t ≡ some i
      → (handle parts t h).0 ≡ ok r
      → lookup i (handle parts t h).1.seen ≡ some r
  handle_remembers t i r h room c named done = elim (Option-cases (lookup i h.seen)) [
    | inr (r', found) ↦
        let hit = handle_cached parts t i r' h named found in
        rw hit (cc (found, ap (λ p. p.0) hit, done))
    | inl absent ↦
        let new = handle_new parts t i h named absent in
        rw new (
          settled t i r (parts.engine t h.engine) h room c named absent
            (ap (λ p. p.0) (sym new) ∙ done))
  ]

  -- With room in a consistent cache, a message that was answered is answered the same when one
  -- with its id is delivered next, and nothing changes but the count of skipped duplicates: the
  -- engine's state is not touched.
  pub handle_duplicate :
      (t t' : T) (i : N) (r : R) (h : HandlerState N R S P)
      → 0 < parts.cache_size
      → IsCache parts.cache_size h
      → parts.id_of t ≡ some i
      → parts.id_of t' ≡ some i
      → (handle parts t h).0 ≡ ok r
      → let h' = (handle parts t h).1 in
        handle parts t' h' ≡ (ok r, record h' { duplicates_skipped = h'.duplicates_skipped + 1 })
  handle_duplicate t t' i r h room c named again done =
      handle_cached parts t' i r (handle parts t h).1 again
        (handle_remembers t i r h room c named done)
