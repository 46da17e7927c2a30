-- ===== src/Governance/Registry/Lifecycle.antt =====
-- Sequences of registry calls: the invariant over every history, who may change the champion, and
-- what a promotion and a rollback leave behind.
use text.Mathlib.TextEquality.{eq_iff}
use real_time_risk_fraud_eng.Prelude.{
  ◌≡◌, ◌≢◌, refl, true, false, String, Option, none, some, arith, inl, inr, ◌⊎◌, is_some, ap, subst,
  ◌∙◌, sym, List, [], ◌∷◌, All, Bool, if◌then◌else◌,
}
use real_time_risk_fraud_eng.Prelude.Keys.{◌==◌, lookup, str_key}
use real_time_risk_fraud_eng.Result.{Result}
use real_time_risk_fraud_eng.Governance.Registry.{
  Registry, Model, candidate, champion, retired, RegistryError, Submission, empty, register_model,
  register_champion, register_candidate, promote, rollback, reject, replace_champion, crown,
  restore, with_model, same_status,
}
use real_time_risk_fraud_eng.Governance.Registry.WellFormed.{IsWellFormed, champion-change}
use real_time_risk_fraud_eng.Governance.Registry.Outcomes.{
  register_candidate_outcome, register_champion_outcome, register_new_outcome,
  register_model_outcome,
}
use real_time_risk_fraud_eng.Governance.Registry.Succession.{crown-IsCrowning, restore-IsCrowning}
use real_time_risk_fraud_eng.Governance.Registry.Transitions.{
  status_check, promote_refused, rollback_refused, reject_refused, promote_ok, rollback_ok,
  reject_ok, turned_down,
}
use real_time_risk_fraud_eng.Governance.Registry.Steps.{
  Step, stay, enrol, install, replace, turn_down, Step-IsWellFormed, Step-keeps,
}

-- The calls that change the registry: `store_new` is `register_model` without overwriting.
pub data Op : Type 0 where
  enter : Submission → Op
  store_new : Submission → Op
  install_first : Submission → Op
  promoting : String → String → String → String → Op
  rolling_back : String → String → String → String → Op
  rejecting : String → String → Op

-- The registry after a call, whether it returned or raised.
abbrev pub apply : Op → Registry → Registry
apply (enter sub) r = (register_candidate sub r).1
apply (store_new sub) r = (register_model false sub r).1
apply (install_first sub) r = (register_champion sub r).1
apply (promoting i by why now) r = (promote i by why now r).1
apply (rolling_back i by why now) r = (rollback i by why now r).1
apply (rejecting i why) r = (reject i why r).1

abbrev pub run : List Op → Registry → Registry
run [] r = r
run (op ∷ ops) r = run ops (apply op r)

-- A submission under the empty id, which the code takes for the absence of a champion, is left out, and for
-- `register_model` metadata of status CHAMPION.
abbrev pub IsNamed : Op → Type 0
IsNamed (enter sub) = sub.model_id ≢ some ""
IsNamed (store_new sub) = (sub.model_id ≢ some "") × (sub.status ≢ some "CHAMPION")
IsNamed (install_first sub) = sub.model_id ≢ some ""
IsNamed (promoting i by why now) = Unit {0}
IsNamed (rolling_back i by why now) = Unit {0}
IsNamed (rejecting i why) = Unit {0}

lands :
    {A : Type 0} {r s : Registry} {c : Result RegistryError A × Registry}
    {x : Result RegistryError A}
    → c ≡ (x, s)
    → Step r s
    → Step r c.1
lands {r = r} h st = subst (Step r) (sym (ap (λ k. k.1) h)) st

named_by :
    (sub : Submission) (i : String)
    → sub.model_id ≡ some i
    → sub.model_id ≢ some ""
    → (i == "") ≡ false
named_by sub i id named = ground (arith, eq_iff i "")

-- Every call moves a well-formed registry by one step.
apply-Step : (op : Op) → IsNamed op → (r : Registry) → IsWellFormed r → Step r (apply op r)
apply-Step (enter sub) named r w = elim (register_candidate_outcome sub r) [
  | inl (e, raised) ↦ lands raised stay
  | inr (m, done, status, free, id) ↦
      lands done
        (enrol m (named_by sub m.model_id id named) (rw status (unfold same_status in refl)) free)
]
apply-Step (store_new sub) named r w = elim (register_new_outcome sub r named.1) [
  | inl (e, raised) ↦ lands raised stay
  | inr (m, done, low, free, id) ↦
      lands done (enrol m (named_by sub m.model_id id named.0) low free)
]
apply-Step (install_first sub) named r w = elim (register_champion_outcome sub r) [
  | inl (e, raised) ↦ lands raised stay
  | inr (m, done, status, sole, id) ↦
      lands done (install m (named_by sub m.model_id id named) status sole)
]
apply-Step (promoting i by why now) named r w = elim (status_check r i by why now candidate) [
  | inr (e, refused) ↦ lands (promote_refused r i by why now e refused) stay
  | inl (m, found, status) ↦
      let (p, reign, done) = promote_ok r i by why now w m found status in
      lands done (
        replace i m found (λ h. cc) now by _ (crown now by why) (crown-IsCrowning now by why) p
          reign)
]
apply-Step (rolling_back i by why now) named r w = elim (status_check r i by why now retired) [
  | inr (e, refused) ↦ lands (rollback_refused r i by why now e refused) stay
  | inl (m, found, status) ↦
      let (p, reign, done) = rollback_ok r i by why now w m found status in
      lands done (
        replace i m found (λ h. cc) now by _ (restore now by why) (restore-IsCrowning now by why) p
          reign)
]
apply-Step (rejecting i why) named r w = elim (status_check r i "" why "" candidate) [
  | inr (e, refused) ↦ lands (reject_refused r i "" why "" e refused) stay
  | inl (m, found, status) ↦
      lands (reject_ok r i "" why "" w m found status) (turn_down i m found status why)
]

pub empty-IsWellFormed : IsWellFormed empty
unfolding lookup
empty-IsWellFormed = record {
  own_id = λ i m h. cc;
  named = λ i m h. cc;
  pointer = λ i h. cc;
  unique = λ i m h c. cc;
}

-- From a well-formed registry every sequence of calls of register_candidate, register_champion, promote,
-- rollback, reject and register_model in which nothing is submitted under the empty id, failed calls
-- included, leads to a well-formed one: each model is under its own id, and the champion's id names the one
-- CHAMPION model or is None. The calls of register_model are without overwrite and with a status that is not
-- CHAMPION: one with that status leaves two champions.
pub run-IsWellFormed :
    (ops : List Op) → All IsNamed ops → (r : Registry) → IsWellFormed r → IsWellFormed (run ops r)
run-IsWellFormed [] named r w = w
run-IsWellFormed (op ∷ ops) (n, named) r w =
    run-IsWellFormed ops named (apply op r) (Step-IsWellFormed w (apply-Step op n r w))

-- From a well-formed registry, no such sequence of calls removes a model that was registered.
run_keeps :
    (ops : List Op)
    → All IsNamed ops
    → (r : Registry) → IsWellFormed r
    → (j : String) → is_some (lookup j r.models) ≡ true
    → is_some (lookup j (run ops r).models) ≡ true
run_keeps [] named r w j h = h
run_keeps (op ∷ ops) (n, named) r w j h =
    let st = apply-Step op n r w in
    run_keeps ops named (apply op r) (Step-IsWellFormed w st) j (Step-keeps w st j h)

-- The model that a call means to make the champion.
abbrev pub replaces : Op → Option String
replaces (enter sub) = none
replaces (store_new sub) = none
replaces (install_first sub) = none
replaces (promoting i by why now) = some i
replaces (rolling_back i by why now) = some i
replaces (rejecting i why) = none

kept_by_other :
    (m : Model) (r : Registry)
    → same_status m.status champion ≡ false
    → (with_model m r).champion_model_id ≡ r.champion_model_id
unfolding with_model
kept_by_other m r low = rw low refl

kept_by_champion :
    (m : Model) (r : Registry) (c : String)
    → m.status ≡ champion
    → ((r.champion_model_id ≡ none) ⊎ (r.champion_model_id ≡ some m.model_id))
    → r.champion_model_id ≡ some c
    → (with_model m r).champion_model_id ≡ some c
unfolding with_model same_status
kept_by_champion m r c status sole h = ground arith

crowned :
    (r : Registry) (i now by why : String) (g : Option String → Model → Model) (p : Option Model)
    → (replace_champion i now by why g p r).champion_model_id ≡ some i
unfolding replace_champion
crowned r i now by why g p = refl

op_moves :
    (op : Op)
    → IsNamed op
    → (r : Registry) → IsWellFormed r
    → (c : String) → r.champion_model_id ≡ some c
    → ((apply op r).champion_model_id ≡ some c)
      ⊎ ((i : String) × (replaces op ≡ some i) × ((apply op r).champion_model_id ≡ some i))
op_moves (enter sub) named r w c h = elim (register_candidate_outcome sub r) [
  | inl (e, raised) ↦ inl (ap (λ k. k.1.champion_model_id) raised ∙ h)
  | inr (m, done, status, free, id) ↦ inl (
      ap (λ k. k.1.champion_model_id) done
      ∙ kept_by_other m r (rw status (unfold same_status in refl))
      ∙ h)
]
op_moves (store_new sub) named r w c h = elim (register_new_outcome sub r named.1) [
  | inl (e, raised) ↦ inl (ap (λ k. k.1.champion_model_id) raised ∙ h)
  | inr (m, done, low, free, id) ↦
      inl (ap (λ k. k.1.champion_model_id) done ∙ kept_by_other m r low ∙ h)
]
op_moves (install_first sub) named r w c h = elim (register_champion_outcome sub r) [
  | inl (e, raised) ↦ inl (ap (λ k. k.1.champion_model_id) raised ∙ h)
  | inr (m, done, status, sole, id) ↦
      inl (ap (λ k. k.1.champion_model_id) done ∙ kept_by_champion m r c status sole h)
]
op_moves (promoting i by why now) named r w c h = elim (status_check r i by why now candidate) [
  | inr (e, refused) ↦
      inl (ap (λ k. k.1.champion_model_id) (promote_refused r i by why now e refused) ∙ h)
  | inl (m, found, status) ↦
      let (p, reign, done) = promote_ok r i by why now w m found status in
      inr
        (i, refl, ap (λ k. k.1.champion_model_id) done ∙ crowned r i now by _ (crown now by why) p)
]
op_moves (rolling_back i by why now) named r w c h = elim (status_check r i by why now retired) [
  | inr (e, refused) ↦
      inl (ap (λ k. k.1.champion_model_id) (rollback_refused r i by why now e refused) ∙ h)
  | inl (m, found, status) ↦
      let (p, reign, done) = rollback_ok r i by why now w m found status in
      inr (
        i,
        refl,
        ap (λ k. k.1.champion_model_id) done ∙ crowned r i now by _ (restore now by why) p,
      )
]
op_moves (rejecting i why) named r w c h = elim (status_check r i "" why "" candidate) [
  | inr (e, refused) ↦
      inl (ap (λ k. k.1.champion_model_id) (reject_refused r i "" why "" e refused) ∙ h)
  | inl (m, found, status) ↦ inl (
      ap (λ k. k.1.champion_model_id) (reject_ok r i "" why "" w m found status)
      ∙ champion-change i (turned_down why) r
      ∙ h)
]

-- Every call that writes to the registry: the documented entry points and `register_model` itself.
pub data Call : Type 0 where
  through : Op → Call
  storing : Bool → Submission → Call

abbrev pub perform : Call → Registry → Registry
perform (through op) r = apply op r
perform (storing overwrite sub) r = (register_model overwrite sub r).1

abbrev pub IsNamedCall : Call → Type 0
IsNamedCall (through op) = IsNamed op
IsNamedCall (storing overwrite sub) = Unit {0}

-- The id that metadata of status CHAMPION has.
abbrev pub champion_entry : Option String → Option String → Option String
champion_entry none i = none
champion_entry (some s) i = if s == "CHAMPION" then i else none

-- The model that a call names as the champion: that of a promotion or a rollback, or the one that
-- `register_model` stores with the status CHAMPION.
abbrev pub crowns : Call → Option String
crowns (through op) = replaces op
crowns (storing overwrite sub) = champion_entry sub.status sub.model_id

-- On a well-formed registry with a champion: a promotion, a rollback, a rejection, a registration as
-- candidate or champion that submits nothing under the empty id, or any call of `register_model`, leaves the
-- champion's id in place, or else it is a promotion, a rollback or a call of `register_model` with metadata
-- of status CHAMPION, and then the champion's id is the one that the call names.
pub champion_moves :
    (call : Call)
    → IsNamedCall call
    → (r : Registry) → IsWellFormed r
    → (c : String) → r.champion_model_id ≡ some c
    → ((perform call r).champion_model_id ≡ some c)
      ⊎ ((i : String) × (crowns call ≡ some i) × ((perform call r).champion_model_id ≡ some i))
champion_moves (through op) named r w c h = op_moves op named r w c h
champion_moves (storing overwrite sub) named r w c h =
    elim (register_model_outcome overwrite sub r) [
      | inl same ↦ inl (same ∙ h)
      | inr (i, word, id, crowned_now) ↦ inr (i, rw (word, id) refl, crowned_now)
    ]
