-- ===== src/Features/Behavioral/Extremes.antt =====
-- A cumulative extreme of a shifted column is the extreme of the earlier values of the group.
use real_time_risk_fraud_eng.Prelude.{
  ◌≡◌, refl, ap, ◌∙◌, false, some, List, [], ◌∷◌, ◌++◌, map, arith, length, All, keep,
}
use mathlib.Core.List.{append-nil, append_assoc}
use real_time_risk_fraud_eng.Prelude.Keys.{Hashable}
use real_time_risk_fraud_eng.Float.{Float, nan, is_nan}
use real_time_risk_fraud_eng.Features.Columns.{
  get_elem?, zip_with, Keyed, pair, group, group-snoc, scan_from, scan,
}
use real_time_risk_fraud_eng.Features.Behavioral.{Row}
use real_time_risk_fraud_eng.Features.Behavioral.Groups.{
  last_from, last_from-snoc, best, running, keyed, those, group-keyed,
}

-- Each value replaced by the one before it, the first one by `p`.
unfoldable shifted_from : Float → List Float → List Float
shifted_from p [] = []
shifted_from p (x ∷ xs) = p ∷ shifted_from x xs

shifted_from-last :
    (p : Float) (xs : List Float) → shifted_from p xs ++ last_from p xs ∷ [] ≡ p ∷ xs
unfolding shifted_from last_from
shifted_from-last p [] = refl
shifted_from-last p (x ∷ xs) = ap (λ l. p ∷ l) (shifted_from-last x xs)

last_from_number :
    (p : Float) (xs : List Float)
    → is_nan p ≡ false
    → All (λ x. is_nan x ≡ false) xs
    → is_nan (last_from p xs) ≡ false
unfolding last_from
last_from_number p [] h k = h
last_from_number p (x ∷ xs) h k = last_from_number x xs k.0 k.1

-- The extreme of some numbers, NaN of none.
running_shifted :
    (pick : Float → Float → Float) (xs : List Float)
    → All (λ x. is_nan x ≡ false) xs
    → running pick (shifted_from nan xs) (last_from nan xs) ≡ best pick nan xs
unfolding running last_from best is_nan shifted_from
running_shifted pick [] h = refl
running_shifted pick (x ∷ xs) h = rw (last_from_number x xs h.0 h.1, shifted_from-last x xs) refl

module _ {K I : Type 0} ⦃e : Hashable K⦄ ⦃e' : Hashable I⦄ (g : Row K I → Float) where
  group-shifted :
      (k : K) (seen : Keyed K Float) (rows : List (Row K I))
      → group k (
          zip_with pair
            (map (λ r. r.entity) rows)
            (scan_from (λ seen x. last_from nan seen) seen (keyed g rows)))
        ≡ shifted_from (last_from nan (group k seen)) (map g (those k rows))
  unfolding group zip_with pair scan_from keyed those keep shifted_from
  group-shifted k seen [] = refl
  group-shifted k seen (r ∷ rows) = ground (
    arith,
    group-shifted k (seen ++ (r.entity, g r) ∷ []) rows,
    group-snoc k r.entity (g r) seen,
    last_from-snoc nan (g r) (group k seen),
    e.equal_iff r.entity k,
  )

  -- A grouped operation on a column that a grouped operation made.
  rescan :
      (f h : List Float → Float → Float) (seen seen' : Keyed K Float) (pre : List (Row K I))
      (r : Row K I) (post : List (Row K I))
      → get_elem?
          (scan_from h seen' (
            zip_with pair
              (map (λ r. r.entity) (pre ++ r ∷ post))
              (scan_from f seen (keyed g (pre ++ r ∷ post)))))
          (length pre)
        ≡ some (
            h
              (group r.entity
                (seen' ++ zip_with pair (map (λ r. r.entity) pre) (scan_from f seen (keyed g pre))))
              (f (group r.entity (seen ++ keyed g pre)) (g r)))
  unfolding scan_from zip_with pair keyed
  rescan f h seen seen' [] r post = rw (append-nil seen, append-nil seen') refl
  rescan f h seen seen' (q ∷ pre) r post =
      let x = f (group q.entity seen) (g q) in
      rw
        (
          ← append_assoc seen ((q.entity, g q) ∷ []) (keyed g pre),
          ← append_assoc seen' ((q.entity, x) ∷ []) (
              zip_with pair (map (λ r. r.entity) pre)
                (scan_from f (seen ++ (q.entity, g q) ∷ []) (keyed g pre))),
        )
        (rescan f h (seen ++ (q.entity, g q) ∷ []) (seen' ++ (q.entity, x) ∷ []) pre r post)

  pub extreme_row :
      (pick : Float → Float → Float) (pre : List (Row K I)) (r : Row K I) (post : List (Row K I))
      → All (λ x. is_nan x ≡ false) (map g (those r.entity pre))
      → get_elem?
          (scan (running pick) (
            zip_with pair
              (map (λ r. r.entity) (pre ++ r ∷ post))
              (scan (λ seen x. last_from nan seen) (keyed g (pre ++ r ∷ post)))))
          (length pre)
        ≡ some (best pick nan (map g (those r.entity pre)))
  unfolding scan group last_from
  extreme_row pick pre r post h =
      rescan (λ seen x. last_from nan seen) (running pick) [] [] pre r post
      ∙ rw (group-shifted r.entity [] pre, group-keyed g r.entity pre)
          (ap some (running_shifted pick (map g (those r.entity pre)) h))
