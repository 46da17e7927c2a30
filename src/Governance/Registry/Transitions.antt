-- ===== src/Governance/Registry/Transitions.antt =====
-- What `promote`, `rollback` and `reject` do on a well-formed registry, on every branch.
use text.Mathlib.TextEquality.{eq_iff}
use Prim.Native.String.{◌++◌ as ◌+++◌}
use real_time_risk_fraud_eng.Prelude.{
  ◌≡◌, ◌≢◌, refl, true, String, Option, none, some, arith, inl, inr, ◌⊎◌, Option-cases, Bool-cases,
  ap, ◌∙◌,
}
use real_time_risk_fraud_eng.Prelude.Keys.{lookup, str_key}
use real_time_risk_fraud_eng.Result.{ok, err}
use real_time_risk_fraud_eng.Governance.Registry.{
  Registry, Model, Status, candidate, champion, rejected, retired, RegistryError, same_status,
  promote, rollback, reject, replace_champion, change_model, crown, restore, change, get_model,
  id_of, unknown_model, wrong_status, or_raise,
}
use real_time_risk_fraud_eng.Governance.Registry.WellFormed.{IsWellFormed, lookup-change}
use real_time_risk_fraud_eng.Governance.Registry.Succession.{
  Reign, get_champion_ok, replaced_ok, crown-IsCrowning, restore-IsCrowning,
}

pub same_status_iff : (s t : Status) → same_status s t ≡ true → s ≡ t
unfolding same_status
same_status_iff candidate candidate h = refl
same_status_iff candidate champion h = cc
same_status_iff candidate rejected h = cc
same_status_iff candidate retired h = cc
same_status_iff champion candidate h = cc
same_status_iff champion champion h = refl
same_status_iff champion rejected h = cc
same_status_iff champion retired h = cc
same_status_iff rejected candidate h = cc
same_status_iff rejected champion h = cc
same_status_iff rejected rejected h = refl
same_status_iff rejected retired h = cc
same_status_iff retired candidate h = cc
same_status_iff retired champion h = cc
same_status_iff retired rejected h = cc
same_status_iff retired retired h = refl

pub same_status_refl : (s : Status) → same_status s s ≡ true
unfolding same_status
same_status_refl candidate = refl
same_status_refl champion = refl
same_status_refl rejected = refl
same_status_refl retired = refl

-- The change that `reject` makes.
abbrev pub turned_down : String → Model → Model
turned_down why x = record x { status = rejected; notes = x.notes +++ "\nRejected: " +++ why }

-- A call on a model that is missing, or whose status is not the one that the call is for.
abbrev pub IsRefused : Registry → String → Status → RegistryError → Type 0
IsRefused r i s e =
    ((lookup i r.models ≡ none) × (e ≡ unknown_model))
    ⊎ ((m : Model) × (lookup i r.models ≡ some m) × (m.status ≢ s) × (e ≡ wrong_status m.status))

module _ (r : Registry) (i by why now : String) where
  -- `promote` refuses, and changes nothing, an id that names no candidate.
  pub promote_refused :
      (e : RegistryError) → IsRefused r i candidate e → promote i by why now r ≡ (err e, r)
  unfolding promote get_model or_raise
  promote_refused e (inl (absent, same)) = rw absent cc
  promote_refused e (inr (m, found, other, same)) =
      elim (Bool-cases (same_status m.status candidate)) [
        | inl hit ↦ ground (arith, same_status_iff m.status candidate hit)
        | inr miss ↦ rw (found, miss) cc
      ]

  pub rollback_refused :
      (e : RegistryError) → IsRefused r i retired e → rollback i by why now r ≡ (err e, r)
  unfolding rollback get_model or_raise
  rollback_refused e (inl (absent, same)) = rw absent cc
  rollback_refused e (inr (m, found, other, same)) =
      elim (Bool-cases (same_status m.status retired)) [
        | inl hit ↦ ground (arith, same_status_iff m.status retired hit)
        | inr miss ↦ rw (found, miss) cc
      ]

  pub reject_refused : (e : RegistryError) → IsRefused r i candidate e → reject i why r ≡ (err e, r)
  unfolding reject get_model or_raise
  reject_refused e (inl (absent, same)) = rw absent cc
  reject_refused e (inr (m, found, other, same)) =
      elim (Bool-cases (same_status m.status candidate)) [
        | inl hit ↦ ground (arith, same_status_iff m.status candidate hit)
        | inr miss ↦ rw (found, miss) cc
      ]

  -- A model is there with the wanted status, or the call is refused.
  pub status_check :
      (s : Status)
      → ((m : Model) × (lookup i r.models ≡ some m) × (m.status ≡ s))
        ⊎ ((e : RegistryError) × IsRefused r i s e)
  status_check s = elim (Option-cases (lookup i r.models)) [
    | inl absent ↦ inr (unknown_model, inl (absent, refl))
    | inr (m, found) ↦ elim (Bool-cases (same_status m.status s)) [
      | inl hit ↦ inl (m, found, same_status_iff m.status s hit)
      | inr miss ↦
          inr (wrong_status m.status, inr (m, found, λ q. ground (arith, same_status_refl s), refl))
    ]
  ]

  module _ (w : IsWellFormed r) (m : Model) (found : lookup i r.models ≡ some m) where
    on_status : (s : Status) → m.status ≡ s → same_status m.status s ≡ true
    on_status s h = ap (λ t. same_status t s) h ∙ same_status_refl s

    -- `promote` of a candidate.
    pub promote_ok :
        m.status ≡ candidate
        → (p : Option Model) × (Reign r p)
          × (promote i by why now r ≡ (
            ok (crown now by why (id_of p) m),
            replace_champion i now by
                ("Superseded by promotion of '" +++ i +++ "'")
                (crown now by why)
                p
                r,
          ))
    unfolding promote get_model or_raise
    promote_ok status =
        let (p, reign, got) = get_champion_ok r w in
        (
          p,
          reign,
          rw (found, on_status candidate status, got)
              (replaced_ok r w i m found (λ h. cc) now by _ (crown now by why)
                (crown-IsCrowning now by why) p reign),
        )

    -- `rollback` to a retired model.
    pub rollback_ok :
        m.status ≡ retired
        → (p : Option Model) × (Reign r p)
          × (rollback i by why now r ≡ (
            ok (restore now by why (id_of p) m),
            replace_champion i now by
                ("Rolled back in favor of '" +++ i +++ "'")
                (restore now by why)
                p
                r,
          ))
    unfolding rollback get_model or_raise
    rollback_ok status =
        let (p, reign, got) = get_champion_ok r w in
        (
          p,
          reign,
          rw (found, on_status retired status, got)
              (replaced_ok r w i m found (λ h. cc) now by _ (restore now by why)
                (restore-IsCrowning now by why) p reign),
        )

    -- `reject` of a candidate.
    pub reject_ok :
        m.status ≡ candidate
        → reject i why r ≡ (ok (turned_down why m), change i (turned_down why) r)
    unfolding reject get_model or_raise change_model
    reject_ok status =
        let here = lookup-change i i (turned_down why) r in
        let same = on_status candidate status in ground (arith, eq_iff i i)
