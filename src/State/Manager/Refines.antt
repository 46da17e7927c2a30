-- ===== src/State/Manager/Refines.antt =====
-- The pruned state of an entity against the state that forgets no time, step by step.
use real_time_risk_fraud_eng.Prelude.{
  ℕ, ◌≡◌, refl, true, false, Option, none, some, List, [], ◌∷◌, ◌++◌, count, All, ap, keep,
}
use real_time_risk_fraud_eng.Prelude.Lists.{All-append}
use real_time_risk_fraud_eng.Float.{Float, le, is_nan, Arithmetic}
use real_time_risk_fraud_eng.Float.Order.{le_refl, le_trans, not_nan_of_le_left}
use real_time_risk_fraud_eng.State.Entity.{
  EntityState, fresh, features_of, features_from, History, history, updated, cutoff, read_prune,
  velocity_counts, day_seconds,
}
use real_time_risk_fraud_eng.State.Entity.Velocity.{
  IsMonotone, IsWindow, prune-IsWindow, append-IsWindow, day-le-now, day_mono,
  velocity_counts-eq-count,
}
use real_time_risk_fraud_eng.State.Manager.Trace.{recorded, full_features}

-- A state with its deque left out.
abbrev pub statistics : EntityState → EntityState
statistics s = record s { recent_times = [] }

module _ (A : Arithmetic) where
  -- `s` is the state of the entity whose whole history is `full`, at a time `clock`.
  pub record Matches (s full : EntityState) (clock : Float) : Type 0 where
    pub same_statistics : statistics s ≡ statistics full
    pub cut : Float
    pub early : le cut (cutoff A day_seconds clock) ≡ true
    pub window : IsWindow full.recent_times cut s.recent_times
    pub past : All (λ t. le t clock ≡ true) full.recent_times

  abbrev pub Related : Option EntityState → Option EntityState → Float → Type 0
  Related none none clock = Unit
  Related none (some f) clock = ⊥
  Related (some s) none clock = ⊥
  Related (some s) (some f) clock = Matches s f clock

All-le_later :
    (ts : List Float) (x y : Float)
    → le x y ≡ true
    → All (λ t. le t x ≡ true) ts
    → All (λ t. le t y ≡ true) ts
All-le_later [] x y h k = tt
All-le_later (t ∷ ts) x y h k = (le_trans t x y k.0 h, All-le_later ts x y h k.1)

history-statistics :
    (A : Arithmetic) (s f : EntityState) (now : Float)
    → statistics s ≡ statistics f
    → history A now (some s) ≡ history A now (some f)
unfolding history
history-statistics A s f now h = ap (λ x. unfold history in history A now (some x)) h

-- The features read the two counts of the velocity and not the pruned times.
features_from-counts :
    (A : Arithmetic) (amount : Float) (h : History) (hour day : ℕ) (ts us : List Float)
    → features_from A amount h (hour, day, ts) ≡ features_from A amount h (hour, day, us)
unfolding features_from
features_from-counts A amount h hour day ts us = refl

module _ (A : Arithmetic) (m : IsMonotone A) where
  Matches-later :
      (s full : EntityState) (x y : Float) → le x y ≡ true → Matches A s full x → Matches A s full y
  Matches-later s full x y h k = record {
    same_statistics = k.same_statistics;
    cut = k.cut;
    early = le_trans k.cut _ _ k.early (day_mono A m x y h);
    window = k.window;
    past = All-le_later full.recent_times x y h k.past;
  }

  pub Related-later :
      (o f : Option EntityState) (x y : Float) → le x y ≡ true → Related A o f x → Related A o f y
  Related-later none none x y h k = tt
  Related-later none (some f) x y h k = k
  Related-later (some s) none x y h k = k
  Related-later (some s) (some f) x y h k = Matches-later s f x y h k

  cutoff_number : (now : Float) → is_nan now ≡ false → is_nan (cutoff A day_seconds now) ≡ false
  cutoff_number now h = not_nan_of_le_left _ now (day-le-now A m now h)

  -- A read prunes at its own time.
  pub read_prune-Matches :
      (s full : EntityState) (now : Float)
      → is_nan now ≡ false
      → Matches A s full now
      → Matches A (read_prune A now s) full now
  unfolding read_prune
  read_prune-Matches s full now h k = record {
    same_statistics = k.same_statistics;
    cut = cutoff A day_seconds now;
    early = le_refl _ (cutoff_number now h);
    window =
        rw
          (velocity_counts-eq-count A m full.recent_times k.cut now s.recent_times h k.early
            k.window)
          (prune-IsWindow full.recent_times k.cut _ s.recent_times k.early k.window);
    past = k.past;
  }

  -- The features of a pruned state are those of the whole history.
  features_of-Matches :
      (s full : EntityState) (now amount : Float)
      → is_nan now ≡ false
      → Matches A s full now
      → features_of A now amount (some s) ≡ full_features A now amount (some full)
  unfolding features_of full_features
  features_of-Matches s full now amount h k =
      rw
        (
          history-statistics A s full now k.same_statistics,
          velocity_counts-eq-count A m full.recent_times k.cut now s.recent_times h k.early
              k.window,
        )
        (features_from-counts A amount _ _ _ _ [])

  pub features_of-Related :
      (o f : Option EntityState) (now amount : Float)
      → is_nan now ≡ false
      → Related A o f now
      → features_of A now amount o ≡ full_features A now amount f
  unfolding features_of full_features velocity_counts count
  features_of-Related none none now amount h k = refl
  features_of-Related none (some f) now amount h k = absurd k
  features_of-Related (some s) none now amount h k = absurd k
  features_of-Related (some s) (some f) now amount h k = features_of-Matches s f now amount h k

  pub updated-Matches :
      (s full : EntityState) (now amount : Float)
      → is_nan now ≡ false
      → Matches A s full now
      → Matches A (updated A now amount s) (recorded A now amount full) now
  unfolding updated recorded
  updated-Matches s full now amount h k =
      let late : le k.cut now ≡ true = le_trans k.cut _ now k.early (day-le-now A m now h) in
      record {
        same_statistics =
            ap (λ x. unfold updated in statistics (updated A now amount x)) k.same_statistics;
        cut = cutoff A day_seconds now;
        early = le_refl _ (cutoff_number now h);
        window =
            prune-IsWindow (full.recent_times ++ now ∷ []) k.cut _ (s.recent_times ++ now ∷ [])
              k.early
              (append-IsWindow full.recent_times k.cut now s.recent_times late k.past k.window);
        past = All-append _ full.recent_times (now ∷ []) k.past (le_refl now h, tt);
      }

  pub fresh-Matches : (now : Float) → is_nan now ≡ false → Matches A fresh fresh now
  fresh-Matches now h = record {
    same_statistics = refl;
    cut = cutoff A day_seconds now;
    early = le_refl _ (cutoff_number now h);
    window = record { ascending = tt; kept = unfold keep in refl };
    past = tt;
  }
