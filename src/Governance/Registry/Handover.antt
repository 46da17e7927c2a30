-- ===== src/Governance/Registry/Handover.antt =====
-- What a promotion leaves behind, and the rollback after it.
use text.Mathlib.TextEquality.{eq_iff}
use Prim.Native.String.{◌++◌ as ◌+++◌}
use real_time_risk_fraud_eng.Prelude.{
  ◌≡◌, refl, false, String, Option, none, some, arith, if◌then◌else◌, ap, subst,
}
use real_time_risk_fraud_eng.Prelude.Keys.{◌==◌, lookup, str_key}
use real_time_risk_fraud_eng.Result.{ok}
use real_time_risk_fraud_eng.Governance.Registry.{
  Registry, Model, candidate, retired, promote, rollback, replace_champion, crown, restore, id_of,
  retire,
}
use real_time_risk_fraud_eng.Governance.Registry.WellFormed.{IsWellFormed}
use real_time_risk_fraud_eng.Governance.Registry.Succession.{
  Reign, crown-IsCrowning, restore-IsCrowning, lookup-replace_champion, replace-IsWellFormed,
}
use real_time_risk_fraud_eng.Governance.Registry.Transitions.{promote_ok, rollback_ok}

-- The reason that `promote` writes into the history of the champion it retires.
abbrev pub superseded : String → String
superseded i = "Superseded by promotion of '" +++ i +++ "'"

module _ (r : Registry) (w : IsWellFormed r) (i by why now c : String) (m p : Model)
    (found : lookup i r.models ≡ some m) (status : m.status ≡ candidate)
    (current : r.champion_model_id ≡ some c) (reigning : lookup c r.models ≡ some p) where
  -- On a well-formed registry with a champion, the promotion of a candidate returns it as the
  -- champion, points to it, keeps the former champion as a retired model, leaves every other
  -- model as it is, and the registry is well-formed again.
  pub promote_hands_over :
      (s : Registry) × (promote i by why now r ≡ (ok (crown now by why (some c) m), s))
      × (IsWellFormed s)
      × (s.champion_model_id ≡ some i)
      × ((j : String)
          → lookup j s.models ≡ (
              if i == j
              then some (crown now by why (some c) m)
              else if c == j
              then some (retire now by (superseded i) p)
              else lookup j r.models))
  unfolding replace_champion id_of
  promote_hands_over =
      let own = w.own_id c p reigning in
      let (q, reign, done) = promote_ok r i by why now w m found status in
      let same = sole q reign in
      let reign' = subst (Reign r) same reign in
      let cg = crown-IsCrowning now by why in
      (
        replace_champion i now by (superseded i) (crown now by why) (some p) r,
        rw⁻¹ own (rw same at done),
        replace-IsWellFormed r w i m found (λ h. cc) now by (superseded i) (crown now by why) cg
            (some p) reign',
        refl,
        λ j. rw⁻¹ own (
            lookup-replace_champion r w i m found (λ h. cc) now by (superseded i) (crown now by why)
              cg (some p) reign' j),
      )
    where
      sole : (q : Option Model) → Reign r q → q ≡ some p
      sole none h = ground arith
      sole (some x) (h, there) = ground arith

abbrev pub rolled_back : String → String
rolled_back i = "Rolled back in favor of '" +++ i +++ "'"

module _ (r : Registry) (w : IsWellFormed r) (i by why now c : String) (m p : Model)
    (found : lookup i r.models ≡ some m) (status : m.status ≡ retired)
    (current : r.champion_model_id ≡ some c) (reigning : lookup c r.models ≡ some p) where
  -- The rollback to a retired model returns it as the champion, points to it, retires the former
  -- champion with one more entry in its history, and leaves every other model as it is.
  pub rollback_hands_over :
      (s : Registry) × (rollback i by why now r ≡ (ok (restore now by why (some c) m), s))
      × (IsWellFormed s)
      × (s.champion_model_id ≡ some i)
      × ((j : String)
          → lookup j s.models ≡ (
              if i == j
              then some (restore now by why (some c) m)
              else if c == j
              then some (retire now by (rolled_back i) p)
              else lookup j r.models))
  unfolding replace_champion id_of
  rollback_hands_over =
      let own = w.own_id c p reigning in
      let (q, reign, done) = rollback_ok r i by why now w m found status in
      let same = sole q reign in
      let reign' = subst (Reign r) same reign in
      let cg = restore-IsCrowning now by why in
      (
        replace_champion i now by (rolled_back i) (restore now by why) (some p) r,
        rw⁻¹ own (rw same at done),
        replace-IsWellFormed r w i m found (λ h. cc) now by (rolled_back i) (restore now by why) cg
            (some p) reign',
        refl,
        λ j. rw⁻¹ own (
            lookup-replace_champion r w i m found (λ h. cc) now by (rolled_back i)
              (restore now by why) cg (some p) reign' j),
      )
    where
      sole : (q : Option Model) → Reign r q → q ≡ some p
      sole none h = ground arith
      sole (some x) (h, there) = ground arith

module _ (r : Registry) (w : IsWellFormed r) (i by why now c : String) (m p : Model)
    (found : lookup i r.models ≡ some m) (status : m.status ≡ candidate)
    (current : r.champion_model_id ≡ some c) (reigning : lookup c r.models ≡ some p) where
  -- On a well-formed registry with a champion, after the promotion of a candidate, a rollback to
  -- the former champion succeeds. It makes the former champion the champion again, leaves the
  -- promoted model registered as a retired one, and no other model differs from what it was
  -- before the promotion.
  pub rollback-promote :
      (by' why' now' : String)
      → (s : Registry) × (rollback c by' why' now' (promote i by why now r).1
          ≡ (ok (restore now' by' why' (some i) (retire now by (superseded i) p)), s))
        × (s.champion_model_id ≡ some c)
        × ((j : String)
            → lookup j s.models ≡ (
                if c == j
                then some (restore now' by' why' (some i) (retire now by (superseded i) p))
                else if i == j
                then some (retire now' by' (rolled_back c) (crown now by why (some c) m))
                else lookup j r.models))
  unfolding retire
  rollback-promote by' why' now' =
      let (s, done, ws, at_i, look) =
        promote_hands_over r w i by why now c m p found status current reigning in
      let (q, same, crowned) = w.pointer c current in
      let apart : (i == c) ≡ false = ground (arith, eq_iff i c) in
      let old : lookup c s.models ≡ some (retire now by (superseded i) p) =
        ground (arith, look c, eq_iff c c) in
      let new : lookup i s.models ≡ some (crown now by why (some c) m) =
        ground (arith, look i, eq_iff i i) in
      let (t, undone, wt, at_c, look') =
        rollback_hands_over s ws c by' why' now' i (retire now by (superseded i) p)
          (crown now by why (some c) m) old refl at_i new in
      (t, rw (ap (λ k. k.1) done) undone, at_c, λ j. ground (arith, look' j, look j))
