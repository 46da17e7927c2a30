-- ===== src/Governance/Registry/Outcomes.antt =====
-- How each call of the registry ends: it raises and changes nothing, or it makes its one change.
use text.Mathlib.TextEquality.{eq_iff}
use real_time_risk_fraud_eng.Prelude.{
  ◌≡◌, ◌≢◌, refl, Bool, true, false, String, Option, none, some, arith, inl, inr, ◌⊎◌, List, [],
  ◌∷◌, Option-cases, Bool-cases, ◌&&◌, not, is_some, ◌∙◌,
}
use real_time_risk_fraud_eng.Prelude.Keys.{lookup, str_key}
use real_time_risk_fraud_eng.Result.{Result, ok, err, Result-cases}
use real_time_risk_fraud_eng.Governance.Registry.{
  Registry, Model, Status, candidate, champion, RegistryError, Submission, validate_metadata,
  status_of, register_model, register_champion, register_candidate, store_model, with_model,
  rejected, retired, same_status, status_is, champion_is, complete, already_registered,
}

-- The status that a dict states, if it is one.
stated : Option String → Option Status
stated none = none
stated (some s) = status_of s

complete_lem :
    (sub : Submission) (missing : List String) (i s : Option String) (m : Model)
    → complete sub missing i s ≡ ok m
    → (i ≡ some m.model_id) × (stated s ≡ some m.status)
unfolding complete stated
complete_lem sub [] (some i) (some s) m h = ground arith
complete_lem sub [] none s m h = ground arith
complete_lem sub [] (some i) none m h = ground arith
complete_lem sub (f ∷ fs) i s m h = ground arith

-- What a validated dict says of its id and its status.
validate_metadata_lem :
    (sub : Submission) (m : Model)
    → validate_metadata sub ≡ ok m
    → (sub.model_id ≡ some m.model_id) × (stated sub.status ≡ some m.status)
unfolding validate_metadata
validate_metadata_lem sub m h = complete_lem sub sub.missing sub.model_id sub.status m h

-- A dict whose status passed the test for `wanted` has the status of that word.
status_is_lem :
    (wanted : String) (s : Option String) (x : Unit {0})
    → status_is wanted s ≡ ok x
    → stated s ≡ status_of wanted
unfolding status_is stated
status_is_lem wanted none x h = cc
status_is_lem wanted (some s) x h = ground (arith, eq_iff s wanted)

candidate_word : status_of "CANDIDATE" ≡ some candidate
unfolding status_of
candidate_word = refl

champion_word : status_of "CHAMPION" ≡ some champion
unfolding status_of
champion_word = refl

champion_worded : (s : Option String) → stated s ≡ some champion → s ≡ some "CHAMPION"
unfolding stated status_of
champion_worded none h = ground arith
champion_worded (some s) h = ground (arith, eq_iff s "CHAMPION")

crowned_status : (s : Status) → same_status s champion ≡ true → some s ≡ some champion
unfolding same_status
crowned_status candidate h = ground arith
crowned_status champion h = refl
crowned_status rejected h = ground arith
crowned_status retired h = ground arith

abbrev pub Raises : {A : Type 0} → Result RegistryError A × Registry → Registry → Type 0
Raises {A} c r = (e : RegistryError) × (c ≡ (err e, r))

module _ (sub : Submission) (r : Registry) where
  stored_or_raised :
      (overwrite : Bool) (m : Model)
      → Raises (store_model overwrite m r) r
        ⊎ ((store_model overwrite m r ≡ (ok tt, with_model m r))
            × ((overwrite ≡ false) → lookup m.model_id r.models ≡ none))
  unfolding store_model
  stored_or_raised true m = inr (ground arith, λ h. cc)
  stored_or_raised false m = elim (Option-cases (lookup m.model_id r.models)) [
    | inl free ↦ inr (rw free, λ _. free)
    | inr (x, taken) ↦ inl (already_registered, rw taken)
  ]

  -- `register_candidate` raises, or stores a candidate under an id that was free.
  pub register_candidate_outcome :
      Raises (register_candidate sub r) r
      ⊎ ((m : Model) × (register_candidate sub r ≡ (ok tt, with_model m r))
          × (m.status ≡ candidate)
          × (lookup m.model_id r.models ≡ none)
          × (sub.model_id ≡ some m.model_id))
  unfolding register_candidate register_model
  register_candidate_outcome = elim (Result-cases (status_is "CANDIDATE" sub.status)) [
    | inr (e, h) ↦ inl (e, rw h)
    | inl (x, h) ↦ elim (Result-cases (validate_metadata sub)) [
      | inr (e, k) ↦ inl (e, rw (h, k))
      | inl (m, k) ↦
          let (id, st) = validate_metadata_lem sub m k in
          elim (stored_or_raised false m) [
            | inl (e, raised) ↦ inl (e, rw (h, k) raised)
            | inr (done, free) ↦ inr (
              m,
              rw (h, k) done,
              cc (st, status_is_lem "CANDIDATE" sub.status x h, candidate_word),
              free refl,
              id,
            )
          ]
    ]
  ]

  -- `register_model` of a new id and of a status that is not CHAMPION raises, or stores such a model under
  -- an id that was free.
  pub register_new_outcome :
      sub.status ≢ some "CHAMPION"
      → Raises (register_model false sub r) r
        ⊎ ((m : Model) × (register_model false sub r ≡ (ok tt, with_model m r))
            × (same_status m.status champion ≡ false)
            × (lookup m.model_id r.models ≡ none)
            × (sub.model_id ≡ some m.model_id))
  unfolding register_model
  register_new_outcome other = elim (Result-cases (validate_metadata sub)) [
    | inr (e, k) ↦ inl (e, rw k)
    | inl (m, k) ↦
        let (id, st) = validate_metadata_lem sub m k in
        elim (stored_or_raised false m) [
          | inl (e, raised) ↦ inl (e, rw k raised)
          | inr (done, free) ↦ inr (
            m,
            rw k done,
            (elim (Bool-cases (same_status m.status champion)) [
              | inl crown ↦
                  absurd (other (champion_worded sub.status (st ∙ crowned_status m.status crown)))
              | inr low ↦ low
            ]),
            free refl,
            id,
          )
        ]
  ]

  -- `register_champion` raises, or stores a champion where there was none, or in place of its own
  -- former entry.
  pub register_champion_outcome :
      Raises (register_champion sub r) r
      ⊎ ((m : Model) × (register_champion sub r ≡ (ok tt, with_model m r))
          × (m.status ≡ champion)
          × ((r.champion_model_id ≡ none) ⊎ (r.champion_model_id ≡ some m.model_id))
          × (sub.model_id ≡ some m.model_id))
  unfolding register_champion register_model champion_is
  register_champion_outcome = elim (Result-cases (status_is "CHAMPION" sub.status)) [
    | inr (e, h) ↦ inl (e, rw h)
    | inl (x, h) ↦ elim (Result-cases (champion_is r.champion_model_id sub.model_id)) [
      | inr (e, g) ↦ inl (e, rw (h, g))
      | inl (y, g) ↦ elim (Result-cases (validate_metadata sub)) [
        | inr (e, k) ↦ inl (e, rw (h, g, k))
        | inl (m, k) ↦
            let (id, st) = validate_metadata_lem sub m k in
            elim (stored_or_raised true m) [
              | inl (e, raised) ↦ inl (e, rw (h, g, k) raised)
              | inr (done, _) ↦ inr (
                m,
                rw (h, g, k) done,
                cc (st, status_is_lem "CHAMPION" sub.status x h, champion_word),
                no_other r.champion_model_id y (rw id at g),
                id,
              )
            ]
      ]
    ]
  ]
    where
      no_other :
          {i : String} (c : Option String) (y : Unit {0})
          → champion_is c (some i) ≡ ok y
          → (c ≡ none) ⊎ (c ≡ some i)
      no_other none y g = inl refl
      no_other {i} (some c) y g = ground (arith, eq_iff c i)

-- `register_model` leaves the champion's id as it was, or gives it to the CHAMPION that it stores.
pub register_model_outcome :
    (overwrite : Bool) (sub : Submission) (r : Registry)
    → ((register_model overwrite sub r).1.champion_model_id ≡ r.champion_model_id)
      ⊎ ((i : String) × (sub.status ≡ some "CHAMPION")
          × (sub.model_id ≡ some i)
          × ((register_model overwrite sub r).1.champion_model_id ≡ some i))
unfolding register_model store_model with_model same_status
register_model_outcome overwrite sub r = elim (Result-cases (validate_metadata sub)) [
  | inr (x, h) ↦ inl (rw h refl)
  | inl (m, h) ↦ let (id, word) = validate_metadata_lem sub m h in rw h (stored m id word)
]
  where
    stored :
        (m : Model)
        → sub.model_id ≡ some m.model_id
        → stated sub.status ≡ some m.status
        → ((store_model overwrite m r).1.champion_model_id ≡ r.champion_model_id)
          ⊎ ((i : String) × (sub.status ≡ some "CHAMPION")
              × (sub.model_id ≡ some i)
              × ((store_model overwrite m r).1.champion_model_id ≡ some i))
    stored m id word = elim (Bool-cases (is_some (lookup m.model_id r.models) && not overwrite)) [
      | inl present ↦ rw present (inl refl)
      | inr free ↦ elim (Bool-cases (same_status m.status champion)) [
        | inl crown ↦
            rw (free, crown)
              (inr (
                m.model_id,
                champion_worded sub.status (word ∙ crowned_status m.status crown),
                id,
                refl,
              ))
        | inr low ↦ rw (free, low) (inl refl)
      ]
    ]
