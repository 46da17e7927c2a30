-- ===== src/Features/Behavioral/Scatter.antt =====
-- Writing the counts of each group to the positions of its rows: what ends up at a position.
use real_time_risk_fraud_eng.Prelude.{
  ℕ, zero, suc, ◌+◌, ◌≤◌, ◌<◌, ◌≡◌, refl, ◌∙◌, false, some, List, [], ◌∷◌, ◌++◌, map, arith, length,
  if◌then◌else◌, keep, eqb_iff,
}
use mathlib.Core.List.{append_assoc}
use real_time_risk_fraud_eng.Prelude.Int.{ℤ, sub_ℕ, pos}
use real_time_risk_fraud_eng.Prelude.Keys.{Hashable, ◌==◌, int_key, equal_refl}
use real_time_risk_fraud_eng.Prelude.Distinct.{elem, elem-append}
use real_time_risk_fraud_eng.Prelude.Lists.{length-append}
use real_time_risk_fraud_eng.Float.{Float, Arithmetic}
use real_time_risk_fraud_eng.State.Entity.{float_of}
use real_time_risk_fraud_eng.Features.Columns.{get_elem?, get_elem?-append_length}
use real_time_risk_fraud_eng.Features.Behavioral.{
  Row, Pandas, set_at, scatter, gather, prior_in_window, zeros,
}
use real_time_risk_fraud_eng.Features.Behavioral.Groups.{positions_from, those}

get_elem?-set_at :
    (i j : ℕ) (v w : ℤ) (c : List ℤ)
    → get_elem? c i ≡ some w
    → get_elem? (set_at j v c) i ≡ (if j == i then some v else some w)
unfolding set_at
get_elem?-set_at i j v w [] h = ground arith
get_elem?-set_at zero zero v w (x ∷ c) h = ground arith
get_elem?-set_at zero (suc j) v w (x ∷ c) h = ground arith
get_elem?-set_at (suc i) zero v w (x ∷ c) h = ground arith
get_elem?-set_at (suc i) (suc j) v w (x ∷ c) h = ground (arith, get_elem?-set_at i j v w c h)

length-set_at : (j : ℕ) (v : ℤ) (c : List ℤ) → length (set_at j v c) ≡ length c
unfolding set_at
length-set_at j v [] = refl
length-set_at zero v (x ∷ c) = refl
length-set_at (suc j) v (x ∷ c) = rw (length-set_at j v c) refl

pub length-scatter : (ps : List ℕ) (vs c : List ℤ) → length (scatter ps vs c) ≡ length c
unfolding scatter
length-scatter [] vs c = refl
length-scatter (p ∷ ps) [] c = refl
length-scatter (p ∷ ps) (v ∷ vs) c = length-scatter ps vs (set_at p v c) ∙ length-set_at p v c

-- Positions that are not written to keep their value.
pub scatter_other :
    (i : ℕ) (ps : List ℕ) (vs c : List ℤ) (w : ℤ)
    → elem i ps ≡ false
    → get_elem? c i ≡ some w
    → get_elem? (scatter ps vs c) i ≡ some w
unfolding scatter
scatter_other i [] vs c w h k = k
scatter_other i (p ∷ ps) [] c w h k = k
scatter_other i (p ∷ ps) (v ∷ vs) c w h k =
    ground (arith, scatter_other i ps vs (set_at p v c) w, get_elem?-set_at i p v w c k)

-- A position that is written to last with a value has it.
pub scatter_at :
    (qs : List ℕ) (i : ℕ) (rs : List ℕ) (vs c : List ℤ) (v w : ℤ)
    → elem i rs ≡ false
    → get_elem? vs (length qs) ≡ some v
    → get_elem? c i ≡ some w
    → get_elem? (scatter (qs ++ i ∷ rs) vs c) i ≡ some v
unfolding scatter
scatter_at [] i rs [] c v w h k l = ground arith
scatter_at [] i rs (x ∷ vs) c v w h k l =
    ground
      (arith, scatter_other i rs vs (set_at i x c) x h, get_elem?-set_at i i x w c l, eqb_iff i i)
scatter_at (q ∷ qs) i rs [] c v w h k l = ground arith
scatter_at (q ∷ qs) i rs (x ∷ vs) c v w h k l =
    scatter_at qs i rs vs (set_at q x c) v (if q == i then x else w) h k
      (get_elem?-set_at i q x w c l ∙ ground arith)

module _ {K : Type 0} ⦃e : Hashable K⦄ where
  below : (n i : ℕ) (k : K) (js : List K) → i < n → elem i (positions_from n k js) ≡ false
  unfolding positions_from
  below n i k [] h = refl
  below n i k (j ∷ js) h = ground (arith, below (n + 1) i k js)

  above :
      (n i : ℕ) (k : K) (js : List K) → n + length js ≤ i → elem i (positions_from n k js) ≡ false
  unfolding positions_from
  above n i k [] h = refl
  above n i k (j ∷ js) h = ground (arith, above (n + 1) i k js)

  -- The positions before a row, its own if it has the key, and those after it.
  positions_from-append :
      (n m : ℕ) (k j : K) (pre post : List K)
      → n + length pre ≡ m
      → positions_from n k (pre ++ j ∷ post)
        ≡ positions_from n k pre ++ positions_from m k (j ∷ post)
  unfolding positions_from
  positions_from-append n m k j [] post h = ground arith
  positions_from-append n m k j (i ∷ pre) post h =
      ground (arith, positions_from-append (n + 1) m k j pre post)

  pub own_position :
      (k : K) (pre post : List K)
      → (positions_from 0 k (pre ++ k ∷ post)
          ≡ positions_from 0 k pre ++ length pre ∷ positions_from (length pre + 1) k post)
        × (elem (length pre) (positions_from (length pre + 1) k post) ≡ false)
  unfolding positions_from
  own_position k pre post = (
    positions_from-append 0 (length pre) k k pre post (omega arith) ∙ rw (equal_refl k) refl,
    below (length pre + 1) (length pre) k post (omega arith),
  )

  pub other_position :
      (k j : K) (pre post : List K)
      → (j == k) ≡ false
      → elem (length pre) (positions_from 0 k (pre ++ j ∷ post)) ≡ false
  unfolding positions_from
  other_position k j pre post h =
      rw (positions_from-append 0 (length pre) k j pre post (omega arith), h)
        (elem-append (length pre) (positions_from 0 k pre) (positions_from (length pre + 1) k post)
          ∙ rw
              (
                above 0 (length pre) k pre (omega arith),
                below (length pre + 1) (length pre) k post (omega arith),
              )
              refl)

module _ {K I : Type 0} ⦃e : Hashable K⦄ ⦃e' : Hashable I⦄ where
  pub length-positions :
      (n : ℕ) (k : K) (rows : List (Row K I))
      → length (positions_from n k (map (λ r. r.entity) rows)) ≡ length (those k rows)
  unfolding positions_from those keep
  length-positions n k [] = refl
  length-positions n k (r ∷ rows) = ground (arith, length-positions (n + 1) k rows)

  -- The times at the positions of a key are those of its rows.
  pub gather-positions :
      (ts : List Float) (k : K) (rows : List (Row K I))
      → gather
          (ts ++ map (λ r. r.time) rows)
          (positions_from (length ts) k (map (λ r. r.entity) rows))
        ≡ map (λ r. r.time) (those k rows)
  unfolding gather positions_from those keep
  gather-positions ts k [] = refl
  gather-positions ts k (r ∷ rows) = ground (
    arith,
    gather-positions (ts ++ r.time ∷ []) k rows,
    append_assoc ts (r.time ∷ []) (map (λ (q : Row K I). q.time) rows),
    length-append ts (r.time ∷ []),
    get_elem?-append_length ts r.time (map (λ (q : Row K I). q.time) rows),
  )

  pub length-zeros : (d : List (Row K I)) → length (zeros d) ≡ length d
  unfolding zeros
  length-zeros [] = refl
  length-zeros (r ∷ d) = rw (length-zeros d) refl

  pub zeros_at :
      (pre : List (Row K I)) (r : Row K I) (post : List (Row K I))
      → get_elem? (zeros (pre ++ r ∷ post)) (length pre) ≡ some (pos 0)
  unfolding zeros
  zeros_at [] r post = refl
  zeros_at (q ∷ pre) r post = zeros_at pre r post

  pub prior_in_window_at :
      (A : Arithmetic) (P : Pandas K I) (seconds : ℕ) (all : List Float) (i : ℕ) (ts : List Float)
      (t : Float) (us : List Float)
      → get_elem? (prior_in_window A P seconds all i (ts ++ t ∷ us)) (length ts)
        ≡ some (sub_ℕ (i + length ts) (P.searchsorted all (A.sub t (float_of seconds))))
  unfolding prior_in_window
  prior_in_window_at A P seconds all i [] t us = ground arith
  prior_in_window_at A P seconds all i (x ∷ ts) t us =
      ground (arith, prior_in_window_at A P seconds all (i + 1) ts t us)
