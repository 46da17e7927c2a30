-- ===== src/Governance/Registry/WellFormed.antt =====
-- The invariant of the registry, and how each change of the models shows in a lookup.
use text.Mathlib.TextEquality.{eq_iff}
use real_time_risk_fraud_eng.Prelude.{
  ◌≡◌, false, String, Option, none, some, arith, if◌then◌else◌, inl, inr, Option-cases,
}
use real_time_risk_fraud_eng.Prelude.Keys.{◌==◌, lookup, str_key, lookup-insert}
use real_time_risk_fraud_eng.Result.{ok}
use real_time_risk_fraud_eng.Governance.Registry.{
  Registry, Model, champion, change, retire, id_of, replace_champion, champion_in, with_model,
}

-- Every model is stored under its own id, which is not empty, and the champion's id names the one
-- model whose status is CHAMPION, or nothing where there is none.
pub record IsWellFormed (r : Registry) : Type 0 where
  pub own_id : (i : String) (m : Model) → lookup i r.models ≡ some m → m.model_id ≡ i
  pub named : (i : String) (m : Model) → lookup i r.models ≡ some m → (i == "") ≡ false
  pub pointer :
      (i : String)
      → r.champion_model_id ≡ some i
      → (m : Model) × (lookup i r.models ≡ some m) × (m.status ≡ champion)
  pub unique :
      (i : String) (m : Model)
      → lookup i r.models ≡ some m
      → m.status ≡ champion
      → r.champion_model_id ≡ some i

abbrev pub applied : (Model → Model) → Option Model → Option Model
applied f none = none
applied f (some m) = some (f m)

pub lookup-change :
    (i j : String) (f : Model → Model) (r : Registry)
    → lookup j (change i f r).models
      ≡ (if i == j then applied f (lookup j r.models) else lookup j r.models)
unfolding change
lookup-change i j f r = elim (Option-cases (lookup i r.models)) [
  | inl absent ↦ ground (arith, eq_iff i j)
  | inr (m, found) ↦ ground (arith, eq_iff i j, lookup-insert i j (f m) r.models)
]

pub champion-change :
    (i : String) (f : Model → Model) (r : Registry)
    → (change i f r).champion_model_id ≡ r.champion_model_id
unfolding change
champion-change i f r = ground arith

pub lookup-with_model :
    (m : Model) (j : String) (r : Registry)
    → lookup j (with_model m r).models ≡ (if m.model_id == j then some m else lookup j r.models)
unfolding with_model
lookup-with_model m j r = lookup-insert m.model_id j m r.models

module _ (r : Registry) (w : IsWellFormed r) where
  -- `get_champion` on a well-formed registry.
  pub champion_in-none :
      r.champion_model_id ≡ none → champion_in r.champion_model_id r.models ≡ ok none
  unfolding champion_in
  champion_in-none h = rw h

  pub champion_in-some :
      (c : String) (p : Model)
      → r.champion_model_id ≡ some c
      → lookup c r.models ≡ some p
      → champion_in r.champion_model_id r.models ≡ ok (some p)
  unfolding champion_in
  champion_in-some c p h found = rw (h, w.named c p found, found)

-- A change that makes `i` the champion.
pub record IsCrowning (g : Option String → Model → Model) : Type 0 where
  pub crowns : (p : Option String) (m : Model) → (g p m).status ≡ champion
  pub keeps_id : (p : Option String) (m : Model) → (g p m).model_id ≡ m.model_id

module _ (r : Registry) (w : IsWellFormed r) (i : String) (m : Model)
    (found : lookup i r.models ≡ some m) (now by why : String) (g : Option String → Model → Model)
    (cg : IsCrowning g) where
  module _ (vacant : r.champion_model_id ≡ none) where
    pub lookup-replace_vacant :
        (j : String)
        → lookup j (replace_champion i now by why g none r).models
          ≡ (if i == j then some (g none m) else lookup j r.models)
    unfolding replace_champion id_of
    lookup-replace_vacant j = ground (arith, lookup-change i j (g none) r, eq_iff i j)

    pub replace_vacant : IsWellFormed (replace_champion i now by why g none r)
    unfolding replace_champion
    replace_vacant = record {
      own_id = λ j x h. ground (
        arith,
        lookup-replace_vacant j,
        w.own_id j x,
        w.own_id i m found,
        eq_iff i j,
        cg.keeps_id none m,
      );
      named = λ j x h.
          ground (arith, lookup-replace_vacant j, w.named j x, w.named i m found, eq_iff i j);
      pointer =
          λ j h. (g none m, ground (arith, lookup-replace_vacant j, eq_iff i j), cg.crowns none m);
      unique = λ j x h c. ground (arith, lookup-replace_vacant j, w.unique j x, eq_iff i j);
    }

  module _ (c : String) (p : Model) (current : r.champion_model_id ≡ some c)
      (reigning : lookup c r.models ≡ some p) (other : (c == i) ≡ false) where
    pub lookup-replace_current :
        (j : String)
        → lookup j (replace_champion i now by why g (some p) r).models ≡ (
            if i == j
            then some (g (some c) m)
            else if c == j
            then some (retire now by why p)
            else lookup j r.models)
    unfolding replace_champion id_of
    lookup-replace_current j = ground (
      arith,
      lookup-change i j (g (some p.model_id)) (change p.model_id (retire now by why) r),
      lookup-change p.model_id j (retire now by why) r,
      lookup-change p.model_id i (retire now by why) r,
      w.own_id c p reigning,
      eq_iff i j,
      eq_iff c j,
    )

    pub replace_current : IsWellFormed (replace_champion i now by why g (some p) r)
    unfolding replace_champion retire
    replace_current = record {
      own_id = λ j x h. ground (
        arith,
        lookup-replace_current j,
        w.own_id j x,
        w.own_id i m found,
        w.own_id c p reigning,
        eq_iff i j,
        eq_iff c j,
        cg.keeps_id (some c) m,
      );
      named = λ j x h. ground (
        arith,
        lookup-replace_current j,
        w.named j x,
        w.named i m found,
        w.named c p reigning,
        eq_iff i j,
        eq_iff c j,
      );
      pointer = λ j h. (
        g (some c) m,
        ground (arith, lookup-replace_current j, eq_iff i j),
        cg.crowns (some c) m,
      );
      unique = λ j x h crowned.
          ground (arith, lookup-replace_current j, w.unique j x, eq_iff i j, eq_iff c j);
    }
