-- ===== src/Features/Behavioral/Recall.antt =====
-- The state that the online updates (src/engine/state.py) leave after the earlier rows of an entity.
use real_time_risk_fraud_eng.Prelude.{
  ◌≡◌, refl, true, false, Option, none, some, List, [], ◌∷◌, ◌++◌, map, arith, length, All, keep,
}
use mathlib.Core.List.{append-nil, append_assoc}
use real_time_risk_fraud_eng.Prelude.Lists.{map-append, length-append, All-append}
use real_time_risk_fraud_eng.Float.{Float, nan, is_nan, min, max, le, Arithmetic}
use real_time_risk_fraud_eng.Float.Order.{le_refl, le_trans, not_nan_of_le_right}
use real_time_risk_fraud_eng.State.Entity.{
  EntityState, fresh, updated, extreme, cutoff, day_seconds,
}
use real_time_risk_fraud_eng.State.Entity.Velocity.{
  Ascending, IsMonotone, IsWindow, append-IsWindow, prune-IsWindow, day-le-now, day_mono,
}
use real_time_risk_fraud_eng.Features.Behavioral.{Row}
use real_time_risk_fraud_eng.Features.Behavioral.Groups.{best, last_from, last_from-snoc}

All-later :
    (xs : List Float) (c d : Float)
    → le c d ≡ true
    → All (λ t. le t c ≡ true) xs
    → All (λ t. le t d ≡ true) xs
All-later [] c d h k = tt
All-later (x ∷ xs) c d h k = (le_trans x c d k.0 h, All-later xs c d h k.1)

best-snoc :
    (pick : Float → Float → Float) (m y : Float) (xs : List Float)
    → is_nan (best pick m xs) ≡ false
    → is_nan y ≡ false
    → best pick m (xs ++ y ∷ []) ≡ pick (best pick m xs) y
unfolding best is_nan
best-snoc pick m y [] h k = rw (k, h) refl
best-snoc pick m y (x ∷ xs) h k = best-snoc pick _ y xs h k

min_number : (x y : Float) → is_nan x ≡ false → is_nan y ≡ false → is_nan (min x y) ≡ false
unfolding min
min_number x y h k = ground arith

max_number : (x y : Float) → is_nan x ≡ false → is_nan y ≡ false → is_nan (max x y) ≡ false
unfolding max
max_number x y h k = ground arith

module _ {K I : Type 0} (A : Arithmetic) where
  -- The state after the updates for some rows.
  unfoldable pub recall : EntityState → List (Row K I) → EntityState
  recall s [] = s
  recall s (r ∷ rows) = recall (updated A r.time r.amount s) rows

  -- What the manager finds for an entity with these earlier rows.
  unfoldable pub found_after : List (Row K I) → Option EntityState
  unfolding recall
  found_after [] = none
  found_after (r ∷ rows) = some (recall fresh (r ∷ rows))

  -- `s` is the state after some rows, the last one at the time `clock`.
  pub record IsRecalled (clock : Float) (rows : List (Row K I)) (s : EntityState) : Type 0 where
    pub tally : s.tally ≡ length rows
    pub low : s.min_amt ≡ some (best min nan (map (λ r. r.amount) rows))
    pub low_number : is_nan (best min nan (map (λ r. r.amount) rows)) ≡ false
    pub high : s.max_amt ≡ some (best max nan (map (λ r. r.amount) rows))
    pub high_number : is_nan (best max nan (map (λ r. r.amount) rows)) ≡ false
    pub last : s.last_time ≡ some clock
    pub last_row : last_from nan (map (λ r. r.time) rows) ≡ clock
    pub latest : All (λ t. le t clock ≡ true) (map (λ r. r.time) rows)
    pub window : IsWindow (map (λ r. r.time) rows) (cutoff A day_seconds clock) s.recent_times

  module _ (m : IsMonotone A) where
    first-IsRecalled :
        (r : Row K I)
        → is_nan r.time ≡ false
        → is_nan r.amount ≡ false
        → IsRecalled r.time (r ∷ []) (updated A r.time r.amount fresh)
    unfolding updated best last_from extreme is_nan
    first-IsRecalled r h k =
        let cut = cutoff A day_seconds r.time in
        let early = day-le-now A m r.time h in
        record {
          tally = refl;
          low = rw k refl;
          low_number = rw k k;
          high = rw k refl;
          high_number = rw k k;
          last = refl;
          last_row = refl;
          latest = (le_refl r.time h, tt);
          window =
              prune-IsWindow (r.time ∷ []) cut cut (r.time ∷ [])
                (day_mono A m r.time r.time (le_refl r.time h))
                (append-IsWindow [] cut r.time [] early tt
                  (record { ascending = tt; kept = unfold keep in refl }));
        }

    next-IsRecalled :
        (clock : Float) (rows : List (Row K I)) (s : EntityState) (r : Row K I)
        → IsRecalled clock rows s
        → le clock r.time ≡ true
        → is_nan r.amount ≡ false
        → IsRecalled r.time (rows ++ r ∷ []) (updated A r.time r.amount s)
    unfolding updated extreme
    next-IsRecalled clock rows s r w h k =
        let number = not_nan_of_le_right clock r.time h in
        let times = map-append (λ (q : Row K I). q.time) rows (r ∷ []) in
        let values = map-append (λ (q : Row K I). q.amount) rows (r ∷ []) in
        let amts = map (λ (q : Row K I). q.amount) rows in
        let lowest = best-snoc min nan r.amount amts w.low_number k in
        let highest = best-snoc max nan r.amount amts w.high_number k in
        let later = All-later (map (λ q. q.time) rows) clock r.time h w.latest in
        let moves = day_mono A m clock r.time h in
        let cut = cutoff A day_seconds r.time in
        record {
          tally = omega (arith, w.tally, length-append rows (r ∷ []));
          low = rw (w.low, values, lowest) refl;
          low_number = rw (values, lowest) (min_number _ r.amount w.low_number k);
          high = rw (w.high, values, highest) refl;
          high_number = rw (values, highest) (max_number _ r.amount w.high_number k);
          last = refl;
          last_row = rw times (last_from-snoc nan r.time (map (λ q. q.time) rows));
          latest = rw times (
              All-append _ (map (λ q. q.time) rows) (r.time ∷ []) later
                (le_refl r.time number, tt));
          window = rw times (
              prune-IsWindow (map (λ q. q.time) rows ++ r.time ∷ []) (cutoff A day_seconds clock)
                cut (s.recent_times ++ r.time ∷ []) moves
                (append-IsWindow (map (λ q. q.time) rows) (cutoff A day_seconds clock) r.time
                  s.recent_times (le_trans _ cut r.time moves (day-le-now A m r.time number)) later
                  w.window));
        }

    recall-IsRecalled :
        (clock : Float) (seen rows : List (Row K I)) (s : EntityState) (r : Row K I)
        (later : List (Row K I))
        → IsRecalled clock seen s
        → Ascending (clock ∷ map (λ q. q.time) (rows ++ r ∷ later))
        → All (λ x. is_nan x ≡ false) (map (λ q. q.amount) rows)
        → (last : Float) × (le last r.time ≡ true) × IsRecalled last (seen ++ rows) (recall s rows)
    unfolding recall
    recall-IsRecalled clock seen [] s r later w a k = (clock, (a.1).0, rw (append-nil seen) w)
    recall-IsRecalled clock seen (q ∷ rows) s r later w a k =
        let next = next-IsRecalled clock seen s q w (a.1).0 k.0 in
        rw (← append_assoc seen (q ∷ []) rows) (
          recall-IsRecalled q.time (seen ++ q ∷ []) rows (updated A q.time q.amount s) r later next
            a.2 k.1)

    -- The state of an entity with earlier rows, before a row that is not earlier than they are.
    pub found_after-IsRecalled :
        (q : Row K I) (rows : List (Row K I)) (r : Row K I) (later : List (Row K I))
        → Ascending (map (λ q. q.time) (q ∷ rows ++ r ∷ later))
        → All (λ x. is_nan x ≡ false) (map (λ q. q.amount) (q ∷ rows))
        → (last : Float) × (le last r.time ≡ true)
          × IsRecalled last (q ∷ rows) (recall fresh (q ∷ rows))
    unfolding recall
    found_after-IsRecalled q rows r later a k =
        recall-IsRecalled q.time (q ∷ []) rows (updated A q.time q.amount fresh) r later
          (first-IsRecalled q a.0 k.0) a k.1
