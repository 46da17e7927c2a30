-- ===== src/Governance/Registry/Steps.antt =====
-- The changes that a registry can go through, as a relation, and what every one of them keeps.
use text.Mathlib.TextEquality.{eq_iff}
use real_time_risk_fraud_eng.Prelude.{
  ◌≡◌, ◌≢◌, true, false, String, Option, none, some, arith, ◌⊎◌, is_some, ◌∙◌, sym,
}
use real_time_risk_fraud_eng.Prelude.Keys.{◌==◌, lookup, str_key}
use real_time_risk_fraud_eng.Governance.Registry.{
  Registry, Model, candidate, champion, same_status, replace_champion, change, with_model,
}
use real_time_risk_fraud_eng.Governance.Registry.WellFormed.{
  IsWellFormed, IsCrowning, lookup-change, champion-change, lookup-with_model,
}
use real_time_risk_fraud_eng.Governance.Registry.Succession.{
  Reign, replace-IsWellFormed, lookup-replace_champion,
}
use real_time_risk_fraud_eng.Governance.Registry.Transitions.{turned_down}

pub data Step (r : Registry) : Registry → Type 0 where
  stay : Step r r
  -- a model that is no champion, under a free id
  enrol :
      (m : Model)
      → (m.model_id == "") ≡ false
      → same_status m.status champion ≡ false
      → lookup m.model_id r.models ≡ none
      → Step r (with_model m r)
  -- the first champion, or the present one again
  install :
      (m : Model)
      → (m.model_id == "") ≡ false
      → m.status ≡ champion
      → ((r.champion_model_id ≡ none) ⊎ (r.champion_model_id ≡ some m.model_id))
      → Step r (with_model m r)
  -- another model takes the champion's place
  replace :
      (i : String) (m : Model)
      → lookup i r.models ≡ some m
      → m.status ≢ champion
      → (now by why : String) (g : Option String → Model → Model) → IsCrowning g
      → (p : Option Model) → Reign r p
      → Step r (replace_champion i now by why g p r)
  -- a candidate is rejected
  turn_down :
      (i : String) (m : Model)
      → lookup i r.models ≡ some m
      → m.status ≡ candidate
      → (why : String) → Step r (change i (turned_down why) r)

module _ (r : Registry) (w : IsWellFormed r) where
  enrol-IsWellFormed :
      (m : Model)
      → (m.model_id == "") ≡ false
      → same_status m.status champion ≡ false
      → lookup m.model_id r.models ≡ none
      → IsWellFormed (with_model m r)
  unfolding with_model same_status
  enrol-IsWellFormed m name status free = record {
    own_id = λ j x h. ground (arith, lookup-with_model m j r, w.own_id j x, eq_iff m.model_id j);
    named = λ j x h. ground (arith, lookup-with_model m j r, w.named j x, eq_iff m.model_id j);
    pointer = λ j h.
        let (q, same, crowned) = w.pointer j (ground arith) in
        (q, ground (arith, lookup-with_model m j r, eq_iff m.model_id j), crowned);
    unique = λ j x h c. ground (arith, lookup-with_model m j r, w.unique j x, eq_iff m.model_id j);
  }

  install-IsWellFormed :
      (m : Model)
      → (m.model_id == "") ≡ false
      → m.status ≡ champion
      → ((r.champion_model_id ≡ none) ⊎ (r.champion_model_id ≡ some m.model_id))
      → IsWellFormed (with_model m r)
  unfolding with_model same_status
  install-IsWellFormed m name status sole = record {
    own_id = λ j x h. ground (arith, lookup-with_model m j r, w.own_id j x, eq_iff m.model_id j);
    named = λ j x h. ground (arith, lookup-with_model m j r, w.named j x, eq_iff m.model_id j);
    pointer = λ j h. (m, ground (arith, lookup-with_model m j r, eq_iff m.model_id j), status);
    unique = λ j x h c. ground (arith, lookup-with_model m j r, w.unique j x, eq_iff m.model_id j);
  }

  turn_down-IsWellFormed :
      (i : String) (m : Model)
      → lookup i r.models ≡ some m
      → m.status ≡ candidate
      → (why : String) → IsWellFormed (change i (turned_down why) r)
  turn_down-IsWellFormed i m found status why = record {
    own_id = λ j x h. ground (
      arith,
      lookup-change i j (turned_down why) r,
      w.own_id j x,
      w.own_id i m found,
      eq_iff i j,
    );
    named = λ j x h.
        ground (
          arith,
          lookup-change i j (turned_down why) r,
          w.named j x,
          w.named i m found,
          eq_iff i j,
        );
    pointer = λ j h.
        let (q, same, crowned) = w.pointer j (sym (champion-change i (turned_down why) r) ∙ h) in
        (q, ground (arith, lookup-change i j (turned_down why) r, eq_iff i j), crowned);
    unique = λ j x h c. ground (
      arith,
      lookup-change i j (turned_down why) r,
      w.unique j x,
      eq_iff i j,
      champion-change i (turned_down why) r,
    );
  }

-- Every step from a well-formed registry leads to a well-formed one.
pub Step-IsWellFormed : {r s : Registry} → IsWellFormed r → Step r s → IsWellFormed s
Step-IsWellFormed w stay = w
Step-IsWellFormed {r} w (enrol m name status free) = enrol-IsWellFormed r w m name status free
Step-IsWellFormed {r} w (install m name status sole) = install-IsWellFormed r w m name status sole
Step-IsWellFormed {r} w (replace i m found low now by why g cg p reign) =
    replace-IsWellFormed r w i m found low now by why g cg p reign
Step-IsWellFormed {r} w (turn_down i m found status why) =
    turn_down-IsWellFormed r w i m found status why

-- No step removes a model.
pub Step-keeps :
    {r s : Registry}
    → IsWellFormed r
    → Step r s
    → (j : String) → is_some (lookup j r.models) ≡ true
    → is_some (lookup j s.models) ≡ true
Step-keeps w stay j h = h
Step-keeps {r} w (enrol m name status free) j h = ground (arith, lookup-with_model m j r)
Step-keeps {r} w (install m name status sole) j h = ground (arith, lookup-with_model m j r)
Step-keeps {r} w (replace i m found low now by why g cg none reign) j h =
    ground (arith, lookup-replace_champion r w i m found low now by why g cg none reign j)
Step-keeps {r} w (replace i m found low now by why g cg (some p) reign) j h =
    ground (arith, lookup-replace_champion r w i m found low now by why g cg (some p) reign j)
Step-keeps {r} w (turn_down i m found status why) j h =
    ground (arith, lookup-change i j (turned_down why) r)
