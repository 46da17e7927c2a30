-- ===== src/State/Entity/Velocity.antt =====
-- The pruned deque of an entity against its full history: the velocity counts are exact.
use real_time_risk_fraud_eng.Prelude.{
  ℕ, ◌≤◌, ◌≡◌, refl, Bool, true, false, List, [], ◌∷◌, ◌++◌, arith, count, keep, length, All,
  Bool-cases, inl, inr, ap, ◌∙◌,
}
use real_time_risk_fraud_eng.Prelude.Lists.{length-keep, keep-append, All-append}
use real_time_risk_fraud_eng.Float.{Float, is_nan, lt, le, Arithmetic}
use real_time_risk_fraud_eng.Float.Order.{lt-eq-not-le, le_trans, not_nan_of_le_right}
use real_time_risk_fraud_eng.State.Entity.{
  prune, cutoff, float_of, velocity_counts, hour_seconds, day_seconds,
}

-- Numbers in nondecreasing order.
abbrev pub Ascending : List Float → Type 0
Ascending [] = Unit
Ascending (x ∷ xs) = (is_nan x ≡ false) × All (λ y. le x y ≡ true) xs × Ascending xs

-- Rounded subtraction of a number of seconds is monotone, as IEEE 754 subtraction is.
pub record IsMonotone (A : Arithmetic) : Type 0 where
  pub later :
      (n : ℕ) (x y : Float)
      → le x y ≡ true
      → le (A.sub x (float_of n)) (A.sub y (float_of n)) ≡ true
  pub longer :
      (m n : ℕ) (x : Float)
      → m ≤ n
      → is_nan x ≡ false
      → le (A.sub x (float_of n)) (A.sub x (float_of m)) ≡ true
  pub zero_seconds : (x : Float) → A.sub x (float_of 0) ≡ x

keep-All :
    (c x : Float) (xs : List Float)
    → le c x ≡ true
    → All (λ y. le x y ≡ true) xs
    → keep (le c) xs ≡ xs
unfolding keep
keep-All c x [] h k = refl
keep-All c x (y ∷ ys) h k = rw (le_trans c x y h k.0) (ap (λ l. y ∷ l) (keep-All c x ys h k.1))

-- On times in order, popping from the front is filtering.
prune-eq-keep :
    (c : Float) (ts : List Float) → is_nan c ≡ false → Ascending ts → prune c ts ≡ keep (le c) ts
unfolding prune keep
prune-eq-keep c [] h a = refl
prune-eq-keep c (t ∷ ts) h a = elim (Bool-cases (lt t c)) [
  | inl old ↦ ground (arith, lt-eq-not-le t c a.0 h, prune-eq-keep c ts h a.2)
  | inr recent ↦ ground (arith, lt-eq-not-le t c a.0 h, keep-All c t ts)
]

All-keep :
    (x : Float) (p : Float → Bool) (ts : List Float)
    → All (λ y. le x y ≡ true) ts
    → All (λ y. le x y ≡ true) (keep p ts)
unfolding keep
All-keep x p [] h = tt
All-keep x p (t ∷ ts) h = ground (arith, All-keep x p ts h.1)

pub Ascending-keep : (p : Float → Bool) (ts : List Float) → Ascending ts → Ascending (keep p ts)
unfolding keep
Ascending-keep p [] a = tt
Ascending-keep p (t ∷ ts) a = ground (arith, All-keep t p ts a.1, Ascending-keep p ts a.2)

keep-keep :
    (c d : Float) (ts : List Float) → le c d ≡ true → keep (le d) (keep (le c) ts) ≡ keep (le d) ts
unfolding keep
keep-keep c d [] h = refl
keep-keep c d (t ∷ ts) h = ground (arith, le_trans c d t, keep-keep c d ts h)

count-keep :
    (c d : Float) (ts : List Float)
    → le c d ≡ true
    → count (le d) (keep (le c) ts) ≡ count (le d) ts
unfolding keep count
count-keep c d [] h = refl
count-keep c d (t ∷ ts) h = ground (arith, le_trans c d t, count-keep c d ts h)

-- `recent` is what a cutoff `c` leaves of the full history `ts`, which is in order.
pub record IsWindow (ts : List Float) (c : Float) (recent : List Float) : Type 0 where
  pub ascending : Ascending ts
  pub kept : recent ≡ keep (le c) ts

-- Pruning at a later cutoff moves the window.
pub prune-IsWindow :
    (ts : List Float) (c d : Float) (recent : List Float)
    → le c d ≡ true
    → IsWindow ts c recent
    → IsWindow ts d (prune d recent)
prune-IsWindow ts c d recent h w = record {
  ascending = w.ascending;
  kept = rw w.kept (
      prune-eq-keep d (keep (le c) ts) (not_nan_of_le_right c d h)
        (Ascending-keep (le c) ts w.ascending)
      ∙ keep-keep c d ts h);
}

Ascending-snoc :
    (ts : List Float) (now : Float)
    → is_nan now ≡ false
    → Ascending ts
    → All (λ t. le t now ≡ true) ts
    → Ascending (ts ++ now ∷ [])
Ascending-snoc [] now h a k = (h, tt, tt)
Ascending-snoc (t ∷ ts) now h a k =
    (a.0, All-append _ ts (now ∷ []) a.1 (k.0, tt), Ascending-snoc ts now h a.2 k.1)

-- A time that is appended to the history is appended to the window.
pub append-IsWindow :
    (ts : List Float) (c now : Float) (recent : List Float)
    → le c now ≡ true
    → All (λ t. le t now ≡ true) ts
    → IsWindow ts c recent
    → IsWindow (ts ++ now ∷ []) c (recent ++ now ∷ [])
append-IsWindow ts c now recent h k w = record {
  ascending = Ascending-snoc ts now (not_nan_of_le_right c now h) w.ascending k;
  kept = rw (keep-append (le c) ts (now ∷ []), w.kept) (unfold keep in rw h);
}

module _ (A : Arithmetic) (m : IsMonotone A) where
  pub day-le-now : (now : Float) → is_nan now ≡ false → le (cutoff A day_seconds now) now ≡ true
  unfolding cutoff
  day-le-now now h = rw (m.zero_seconds now) at (m.longer 0 day_seconds now (omega arith) h)

  pub day-le-hour :
      (now : Float)
      → is_nan now ≡ false
      → le (cutoff A day_seconds now) (cutoff A hour_seconds now) ≡ true
  unfolding cutoff
  day-le-hour now h = m.longer hour_seconds day_seconds now (omega arith) h

  pub day_mono :
      (x y : Float) → le x y ≡ true → le (cutoff A day_seconds x) (cutoff A day_seconds y) ≡ true
  unfolding cutoff
  day_mono x y h = m.later day_seconds x y h

  module _ (ts : List Float) (c now : Float) (recent : List Float) (number : is_nan now ≡ false)
      (early : le c (cutoff A day_seconds now) ≡ true) (w : IsWindow ts c recent) where
    pruned : IsWindow ts (cutoff A day_seconds now) (prune (cutoff A day_seconds now) recent)
    pruned = prune-IsWindow ts c (cutoff A day_seconds now) recent early w

    hour_count :
        count (le (cutoff A hour_seconds now)) (prune (cutoff A day_seconds now) recent)
        ≡ count (le (cutoff A hour_seconds now)) ts
    hour_count = rw pruned.kept (
        count-keep (cutoff A day_seconds now) (cutoff A hour_seconds now) ts
          (day-le-hour now number))

    day_count :
        length (prune (cutoff A day_seconds now) recent) ≡ count (le (cutoff A day_seconds now)) ts
    day_count = rw pruned.kept (length-keep (le (cutoff A day_seconds now)) ts)

  -- With monotone subtraction, at a time that is a number, over a window of the history whose cut
  -- is not after the day's cutoff, the counts over the pruned deque are the counts over the whole
  -- history.
  pub velocity_counts-eq-count :
      (ts : List Float) (c now : Float) (recent : List Float)
      → is_nan now ≡ false
      → le c (cutoff A day_seconds now) ≡ true
      → IsWindow ts c recent
      → velocity_counts A now recent ≡ (
        count (le (cutoff A hour_seconds now)) ts,
        count (le (cutoff A day_seconds now)) ts,
        prune (cutoff A day_seconds now) recent,
      )
  unfolding velocity_counts prune count
  velocity_counts-eq-count ts c now [] h k w =
      cc (hour_count ts c now [] h k w, day_count ts c now [] h k w)
  velocity_counts-eq-count ts c now (t ∷ r) h k w =
      cc (hour_count ts c now (t ∷ r) h k w, day_count ts c now (t ∷ r) h k w)
