-- ===== src/Features/Behavioral/Groups.antt =====
-- The earlier rows of an entity in a frame, and what pandas documents for the operations that the offline
-- features use.
use real_time_risk_fraud_eng.Prelude.{
  ℕ, ◌+◌, ◌≡◌, refl, ◌∙◌, true, false, some, List, [], ◌∷◌, ◌++◌, map, arith, length, keep, count,
  All, if◌then◌else◌,
}
use real_time_risk_fraud_eng.Prelude.Keys.{Hashable, ◌==◌, equal_refl}
use real_time_risk_fraud_eng.Prelude.Lists.{map-append, length-map, keep-append}
use real_time_risk_fraud_eng.Prelude.Distinct.{elem, Distinct}
use real_time_risk_fraud_eng.Float.{Float, nan, is_nan, lt, le, min, max}
use real_time_risk_fraud_eng.State.Entity.Velocity.{Ascending}
use real_time_risk_fraud_eng.Features.Columns.{
  get_elem?, zip_with, Keyed, pair, group, scan, scan_at,
}
use real_time_risk_fraud_eng.Features.Behavioral.{Row, Offline, Velocity, Pandas}

-- The last value, or `p` of none.
unfoldable pub last_from : Float → List Float → Float
last_from p [] = p
last_from p (x ∷ xs) = last_from x xs

pub last_from-snoc : (p x : Float) (xs : List Float) → last_from p (xs ++ x ∷ []) ≡ x
unfolding last_from
last_from-snoc p x [] = refl
last_from-snoc p x (y ∷ xs) = last_from-snoc y x xs

-- The extreme of values, those that are NaN left out.
unfoldable pub best : (Float → Float → Float) → Float → List Float → Float
best pick m [] = m
best pick m (x ∷ xs) = best pick (if is_nan x then m else if is_nan m then x else pick m x) xs

-- A cumulative extreme: NaN where the value is.
unfoldable pub running : (Float → Float → Float) → List Float → Float → Float
unfolding best
running pick seen x = if is_nan x then nan else best pick nan (seen ++ x ∷ [])

module _ {K : Type 0} ⦃e : Hashable K⦄ where
  -- The positions of a key, from the number `n` on.
  unfoldable pub positions_from : ℕ → K → List K → List ℕ
  positions_from n k [] = []
  positions_from n k (j ∷ js) =
      if j == k then n ∷ positions_from (n + 1) k js else positions_from (n + 1) k js

  -- Each key once, with its positions in order.
  pub record IsGroups (keys : List K) (groups : List (K × List ℕ)) : Type 0 where
    pub once : Distinct (map (λ g. g.0) groups)
    pub covers : All (λ k. elem k (map (λ (g : K × List ℕ). g.0) groups) ≡ true) keys
    pub positions : All (λ (g : K × List ℕ). g.1 ≡ positions_from 0 g.0 keys) groups

module _ {K I : Type 0} ⦃e : Hashable K⦄ ⦃e' : Hashable I⦄ where
  -- The documented behaviour of the operations, on columns without missing keys.
  pub record IsPandas (P : Pandas K I) : Type 0 where
    pub sorted :
        (rows : List (Row K I))
        → All (λ r. is_nan r.time ≡ false) rows
        → Ascending (map (λ r. r.time) (P.sort_values rows))
    pub cumcount_lem : (d : Keyed K Float) → P.cumcount d ≡ scan (λ seen x. length seen) d
    pub cumsum_length : (d : Keyed K Float) → length (P.cumsum d) ≡ length d
    pub shift_lem : (d : Keyed K Float) → P.shift d ≡ scan (λ seen x. last_from nan seen) d
    pub cummin_lem : (d : Keyed K Float) → P.cummin d ≡ scan (running min) d
    pub cummax_lem : (d : Keyed K Float) → P.cummax d ≡ scan (running max) d
    pub indices_lem : (keys : List K) → IsGroups keys (P.indices keys)
    pub searchsorted_lem :
        (ts : List Float) (x : Float)
        → Ascending ts
        → is_nan x ≡ false
        → P.searchsorted ts x ≡ count (λ t. lt t x) ts
    pub merge_lem :
        (ids : List I) (xs : List Offline) (ys : List Velocity)
        → Distinct ids
        → length xs ≡ length ids
        → length ys ≡ length ids
        → P.merge (zip_with pair ids xs) (zip_with pair ids ys)
          ≡ some (zip_with pair ids (zip_with pair xs ys))

  -- The rows of `k`.
  unfoldable pub those : K → List (Row K I) → List (Row K I)
  those k rows = keep (λ r. r.entity == k) rows

  -- The rows of the entity of a row, around it.
  pub those-split :
      (pre : List (Row K I)) (r : Row K I) (post : List (Row K I))
      → those r.entity (pre ++ r ∷ post) ≡ those r.entity pre ++ r ∷ those r.entity post
  unfolding those keep
  those-split pre r post =
      keep-append (λ (q : Row K I). q.entity == r.entity) pre (r ∷ post)
      ∙ rw (equal_refl r.entity) refl

  All-those :
      (x : Float) (k : K) (rows : List (Row K I))
      → All (λ t. le x t ≡ true) (map (λ r. r.time) rows)
      → All (λ t. le x t ≡ true) (map (λ r. r.time) (those k rows))
  unfolding those keep
  All-those x k [] h = tt
  All-those x k (r ∷ rows) h = ground (arith, All-those x k rows h.1)

  pub Ascending-those :
      (k : K) (rows : List (Row K I))
      → Ascending (map (λ r. r.time) rows)
      → Ascending (map (λ r. r.time) (those k rows))
  unfolding those keep
  Ascending-those k [] a = tt
  Ascending-those k (r ∷ rows) a =
      ground (arith, All-those r.time k rows a.1, Ascending-those k rows a.2)

  -- A column beside the entities.
  unfoldable pub keyed : (Row K I → Float) → List (Row K I) → Keyed K Float
  keyed g rows = map (λ r. (r.entity, g r)) rows

  pub grouped-map :
      (g : Row K I → Float) (rows : List (Row K I))
      → zip_with pair (map (λ r. r.entity) rows) (map g rows) ≡ keyed g rows
  unfolding zip_with pair keyed
  grouped-map g [] = refl
  grouped-map g (r ∷ rows) = rw (grouped-map g rows) refl

  pub group-keyed :
      (g : Row K I → Float) (k : K) (rows : List (Row K I))
      → group k (keyed g rows) ≡ map g (those k rows)
  unfolding group keyed those keep
  group-keyed g k [] = refl
  group-keyed g k (r ∷ rows) = ground (arith, group-keyed g k rows)

  -- A grouped operation at a row sees the earlier rows of its entity.
  pub scan_row :
      {Y : Type 0} (f : List Float → Float → Y) (g : Row K I → Float) (pre : List (Row K I))
      (r : Row K I) (post : List (Row K I))
      → get_elem? (scan f (keyed g (pre ++ r ∷ post))) (length pre)
        ≡ some (f (map g (those r.entity pre)) (g r))
  unfolding keyed
  scan_row f g pre r post =
      rw (map-append {Y = K × Float} (λ (r : Row K I). (r.entity, g r)) pre (r ∷ post)) (
        rw
          (
            ← group-keyed g r.entity pre,
            ← length-map {Y = K × Float} (λ (r : Row K I). (r.entity, g r)) pre,
          )
          (scan_at f (keyed g pre) r.entity (g r) (keyed g post)))
