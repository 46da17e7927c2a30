-- ===== src/Governance/Registry/Succession.antt =====
-- The common end of `promote` and `rollback`: on a well-formed registry the replacement of the
-- champion cannot fail.
use text.Mathlib.TextEquality.{eq_iff}
use real_time_risk_fraud_eng.Prelude.{
  ◌≡◌, ◌≢◌, refl, false, String, Option, none, some, arith, if◌then◌else◌, inl, inr, Option-cases,
  ap, ◌∙◌, sym,
}
use real_time_risk_fraud_eng.Prelude.Keys.{◌==◌, lookup, str_key}
use real_time_risk_fraud_eng.Result.{ok}
use real_time_risk_fraud_eng.Governance.Registry.{
  Registry, Model, champion, replace_champion, replaced, crown, restore, get_champion, get_model,
  id_of, retire, or_raise,
}
use real_time_risk_fraud_eng.Governance.Registry.WellFormed.{
  IsWellFormed, IsCrowning, champion_in-none, champion_in-some, lookup-replace_vacant,
  replace_vacant, lookup-replace_current, replace_current,
}

-- `p` is the model that the champion's id names.
abbrev pub Reign : Registry → Option Model → Type 0
Reign r none = r.champion_model_id ≡ none
Reign r (some p) = (r.champion_model_id ≡ some p.model_id) × (lookup p.model_id r.models ≡ some p)

pub crown-IsCrowning : (now by why : String) → IsCrowning (crown now by why)
unfolding crown
crown-IsCrowning now by why = record { crowns = λ p m. refl; keeps_id = λ p m. refl }

pub restore-IsCrowning : (now by why : String) → IsCrowning (restore now by why)
unfolding restore
restore-IsCrowning now by why = record { crowns = λ p m. refl; keeps_id = λ p m. refl }

module _ (r : Registry) (w : IsWellFormed r) where
  -- A well-formed registry has a champion or none, and `get_champion` returns it.
  pub get_champion_ok : (p : Option Model) × (Reign r p) × (get_champion r ≡ (ok p, r))
  unfolding get_champion
  get_champion_ok = elim (Option-cases r.champion_model_id) [
    | inl vacant ↦ (none, vacant, ap (λ x. (x, r)) (champion_in-none r w vacant))
    | inr (c, current) ↦
        let (p, reigning, _) = w.pointer c current in
        let own = w.own_id c p reigning in
        (
          some p,
          (current ∙ ap some (sym own), ap (λ k. lookup k r.models) own ∙ reigning),
          ap (λ x. (x, r)) (champion_in-some r w c p current reigning),
        )
  ]

  module _ (i : String) (m : Model) (found : lookup i r.models ≡ some m) (low : m.status ≢ champion)
      (now by why : String) (g : Option String → Model → Model) (cg : IsCrowning g) where
    pub differs : (p : Model) → Reign r (some p) → (p.model_id == i) ≡ false
    differs p (current, reigning) =
        let (q, same, crowned) = w.pointer p.model_id current in ground (arith, eq_iff p.model_id i)

    pub replace-IsWellFormed :
        (p : Option Model) → Reign r p → IsWellFormed (replace_champion i now by why g p r)
    replace-IsWellFormed none vacant = replace_vacant r w i m found now by why g cg vacant
    replace-IsWellFormed (some p) (current, reigning) =
        replace_current r w i m found now by why g cg p.model_id p current reigning
          (differs p (current, reigning))

    -- The new champion is stored changed by `g`, the former one is retired, no other model changes.
    pub lookup-replace_champion :
        (p : Option Model)
        → Reign r p
        → (j : String)
        → lookup j (replace_champion i now by why g p r).models ≡ (
            if i == j then some (g (id_of p) m) else elim p [
              | none ↦ lookup j r.models
              | some q ↦ if q.model_id == j then some (retire now by why q) else lookup j r.models
            ])
    unfolding id_of
    lookup-replace_champion none vacant j =
        lookup-replace_vacant r w i m found now by why g cg vacant j
    lookup-replace_champion (some p) (current, reigning) j =
        lookup-replace_current r w i m found now by why g cg p.model_id p current reigning
          (differs p (current, reigning)) j

    pub replaced_ok :
        (p : Option Model)
        → Reign r p
        → replaced i now by why g p r ≡ (ok (g (id_of p) m), replace_champion i now by why g p r)
    unfolding replaced get_model or_raise
    replaced_ok p reign = let here = lookup-replace_champion p reign i in ground (arith, eq_iff i i)
