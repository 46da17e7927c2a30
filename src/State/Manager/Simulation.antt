-- ===== src/State/Manager/Simulation.antt =====
-- The theorem on traces: every backend that is a store gives the features of the whole history.
use real_time_risk_fraud_eng.Prelude.{
  ◌≡◌, refl, Bool, true, false, Option, none, some, List, [], ◌∷◌, inl, inr, Option-cases,
  if◌then◌else◌, Bool-cases, ◌⊎◌,
}
use real_time_risk_fraud_eng.Prelude.Keys.{Hashable, ◌==◌}
use real_time_risk_fraud_eng.Result.{ok}
use real_time_risk_fraud_eng.Float.{Float, is_nan, Arithmetic}
use real_time_risk_fraud_eng.Float.Order.{not_nan_of_le_right}
use real_time_risk_fraud_eng.State.Entity.{EntityState, fresh, features_of, updated, read_prune}
use real_time_risk_fraud_eng.State.Entity.Velocity.{IsMonotone}
use real_time_risk_fraud_eng.State.Backend.{Backend}
use real_time_risk_fraud_eng.State.Backend.Contract.{IsStore}
use real_time_risk_fraud_eng.State.Manager.{compute_features, update}
use real_time_risk_fraud_eng.State.Manager.Trace.{
  Event, read, write, Chronological, recorded, spec_update, spec_trace, trace, or_new,
}
use real_time_risk_fraud_eng.State.Manager.Refines.{
  Related, Related-later, features_of-Related, updated-Matches, fresh-Matches, read_prune-Matches,
}

module _ {K I S : Type 0} ⦃e : Hashable K⦄ (A : Arithmetic) (B : Backend K I S)
    (view : S → K → Option EntityState) (store : IsStore B view) where
  open store use {get-view, put-view, mutated-view}

  -- A change of the object and its write-back together store the new state.
  pub written :
      (k j : K) (x : EntityState) (s : S)
      → view (B.put k x (B.mutated k x s)).1 j ≡ (if k == j then some x else view s j)
  written k j x s =
      let (s', stored, after) = put-view k x (B.mutated k x s) in
      rw (stored, after j) (either (k == j) (mutated-view k j x s))
    where
      either :
          (b : Bool)
          → (view (B.mutated k x s) j ≡ (if b then some x else view s j))
            ⊎ (view (B.mutated k x s) j ≡ view s j)
          → (if b then some x else view (B.mutated k x s) j) ≡ (if b then some x else view s j)
      either true h = refl
      either false (inl h) = h
      either false (inr h) = h

  -- What a read may leave at a key: what was there, or its own entity's state with expired times gone.
  abbrev pub LeavesAt : Float → S → S → K → Type 0
  LeavesAt now s s' j =
      (view s' j ≡ view s j)
      ⊎ ((x : EntityState) × (view s j ≡ some x) × (view s' j ≡ some (read_prune A now x)))

  pruned_at :
      (k j : K) (now : Float) (x : EntityState) (s : S)
      → view s k ≡ some x
      → LeavesAt now s (B.mutated k (read_prune A now x) s) j
  pruned_at k j now x s found = elim (mutated-view k j (read_prune A now x) s) [
    | inl kept ↦ elim (Bool-cases (k == j)) [
      | inl own ↦ inr (x, rw (← (e.equal_iff k j).0 own) found, rw own at kept)
      | inr other ↦ inl (rw other at kept)
    ]
    | inr dropped ↦ inl dropped
  ]

  pub compute_features_effect :
      (k : K) (now amount : Float) (s : S)
      → ((compute_features A B k now amount s).0 ≡ ok (features_of A now amount (view s k)))
        × ((j : K) → LeavesAt now s (compute_features A B k now amount s).1 j)
  unfolding compute_features
  compute_features_effect k now amount s = elim (Option-cases (view s k)) [
    | inl absent ↦ rw (get-view k s, absent) (refl, λ j. inl refl)
    | inr (x, found) ↦ rw (get-view k s, found) (refl, λ j. pruned_at k j now x s found)
  ]

  -- Over a store an update does not raise.
  pub update_ok : (k : K) (now amount : Float) (s : S) → (update A B k now amount s).0 ≡ ok tt
  unfolding update
  update_ok k now amount s = elim (Option-cases (view s k)) [
    | inl absent ↦
        let (s', stored, after) = put-view k fresh s in
        let y = updated A now amount fresh in
        let (s'', stored', after') = put-view k y (B.mutated k y s') in
        rw (get-view k s, absent, stored, stored') refl
    | inr (x, found) ↦
        let y = updated A now amount x in
        let (s', stored, after) = put-view k y (B.mutated k y s) in
        rw (get-view k s, found, stored) refl
  ]

  -- What an update leaves in the store.
  pub update_effect :
      (k : K) (now amount : Float) (s : S) (j : K)
      → view (update A B k now amount s).1 j
        ≡ (if k == j then some (updated A now amount (or_new (view s k))) else view s j)
  unfolding update or_new
  update_effect k now amount s j = elim (Option-cases (view s k)) [
    | inl absent ↦
        let (s', stored, after) = put-view k fresh s in
        rw (get-view k s, absent, stored, written k j (updated A now amount fresh) s', after j)
          (nested (k == j))
    | inr (x, found) ↦ rw (get-view k s, found) (written k j (updated A now amount x) s)
  ]
    where
      nested :
          (b : Bool)
          → (if b then some (updated A now amount fresh) else if b then some fresh else view s j)
            ≡ (if b then some (updated A now amount fresh) else view s j)
      nested true = refl
      nested false = refl

  module _ (m : IsMonotone A) where
    -- Each entity's state is that of its whole history, up to the times that are out of reach.
    abbrev Tracks : S → (K → Option EntityState) → Float → Type 0
    Tracks s all clock = (j : K) → Related A (view s j) (all j) clock

    Tracks-read :
        (s s' : S) (all : K → Option EntityState) (now : Float)
        → is_nan now ≡ false
        → Tracks s all now
        → ((j : K) → LeavesAt now s s' j)
        → Tracks s' all now
    Tracks-read s s' all now number tracked left j = elim (left j) [
      | inl same ↦ rw same (tracked j)
      | inr (x, found, pruned) ↦ rw pruned (keep_related x (all j) (rw found at (tracked j)))
    ]
      where
        keep_related :
            (x : EntityState) (f : Option EntityState)
            → Related A (some x) f now
            → Related A (some (read_prune A now x)) f now
        keep_related x none h = h
        keep_related x (some f) h = read_prune-Matches A m x f now number h

    tracks_new :
        (o f : Option EntityState) (now amount : Float)
        → is_nan now ≡ false
        → Related A o f now
        → Related A
            (some (updated A now amount (or_new o)))
            (some (recorded A now amount (or_new f)))
            now
    unfolding or_new
    tracks_new none none now amount number h =
        updated-Matches A m fresh fresh now amount number (fresh-Matches A m now number)
    tracks_new none (some f) now amount number h = absurd h
    tracks_new (some x) none now amount number h = absurd h
    tracks_new (some x) (some f) now amount number h = updated-Matches A m x f now amount number h

    Tracks-write :
        (s : S) (all : K → Option EntityState) (k : K) (now amount : Float)
        → is_nan now ≡ false
        → Tracks s all now
        → Tracks (update A B k now amount s).1 (spec_update A k now amount all) now
    unfolding spec_update
    Tracks-write s all k now amount number tracked j =
        rw (update_effect k now amount s j)
          (choose (k == j) _ _ (tracks_new (view s k) (all k) now amount number (tracked k)))
      where
        choose :
            (b : Bool) (x f : Option EntityState)
            → Related A x f now
            → Related A (if b then x else view s j) (if b then f else all j) now
        choose true x f h = h
        choose false x f h = tracked j

    trace_from :
        (es : List (Event K)) (clock : Float) (s : S) (all : K → Option EntityState)
        → Chronological clock es
        → Tracks s all clock
        → trace A B es s ≡ spec_trace A es all
    unfolding trace spec_trace
    trace_from [] clock s all order tracked = refl
    trace_from (read k t a ∷ es) clock s all order tracked =
        let number : is_nan t ≡ false = not_nan_of_le_right clock t order.0 in
        let at_t : Tracks s all t =
          λ j. Related-later A m (view s j) (all j) clock t order.0 (tracked j) in
        let (answer, left) = compute_features_effect k t a s in
        cc (
          answer,
          features_of-Related A m (view s k) (all k) t a number (at_t k),
          trace_from es t (compute_features A B k t a s).1 all order.1
              (Tracks-read s _ all t number at_t left),
        )
    trace_from (write k t a ∷ es) clock s all order tracked =
        let number : is_nan t ≡ false = not_nan_of_le_right clock t order.0 in
        let at_t : Tracks s all t =
          λ j. Related-later A m (view s j) (all j) clock t order.0 (tracked j) in
        trace_from es t (update A B k t a s).1 (spec_update A k t a all) order.1
          (Tracks-write s all k t a number at_t)

    -- Over a backend that is a store, with monotone subtraction, from an empty store, on any
    -- chronological sequence of reads and updates, the trace of the feature vectors is the one
    -- computed from each entity's whole history: no update is lost, and the pruned deque gives
    -- the same velocity counts as all recorded times.
    pub trace-eq-spec_trace :
        (es : List (Event K)) (clock : Float) (s : S)
        → Chronological clock es
        → ((j : K) → view s j ≡ none)
        → trace A B es s ≡ spec_trace A es (λ _. none)
    trace-eq-spec_trace es clock s order empty =
        trace_from es clock s (λ _. none) order (λ j. rw (empty j) tt)
