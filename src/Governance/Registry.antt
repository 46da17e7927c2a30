-- ===== src/Governance/Registry.antt =====
-- `ModelRegistry` (src/governance/registry.py) and the validation of metadata
-- (src/governance/metadata.py). Persistence (`save`, the file read by the constructor) is left out.
pub mod WellFormed
pub mod Outcomes
pub mod Succession
pub mod Transitions
pub mod Steps
pub mod Lifecycle
pub mod Handover
pub mod Summary
pub mod Tests
use real_time_risk_fraud_eng.Prelude.{
  ℕ, Bool, true, false, not, ◌&&◌, String, Option, none, some, List, [], ◌∷◌, ◌++◌, if◌then◌else◌,
  is_some, keep, length,
}
use Prim.Native.String.{◌++◌ as ◌+++◌}
use real_time_risk_fraud_eng.Prelude.Keys.{Hashable, Dict, ◌==◌, lookup, insert, str_key}
use real_time_risk_fraud_eng.Result
use real_time_risk_fraud_eng.Result.{Result, ok, err}
use real_time_risk_fraud_eng.Exec.{Exec, pure, raise, lift, gets, modify, ◌>>=◌, ◌>>◌}

-- `VALID_STATUSES`
pub data Status : Type 0 where
  candidate champion rejected retired : Status

-- One entry of a history list: when, by whom, why, and the model that was replaced.
pub record Entry : Type 0 where
  pub at : String
  pub approved_by : String
  pub reason : String
  pub previous_champion : Option String

-- Metadata that has been validated. The fields that the registry neither reads nor writes are left out.
pub record Model : Type 0 where
  pub model_id : String
  pub model_version : String
  pub status : Status
  pub notes : String
  pub promoted_at : Option String
  pub promoted_from : Option String
  pub retired_at : Option String
  pub promotion_history : List Entry
  pub retirement_history : List Entry
  pub rollback_history : List Entry

-- A metadata dict as a caller hands it in: two keys that may be missing or hold any string, the other
-- required keys that are missing, whether `evaluation_metrics` is a dict, and the rest.
pub record Submission : Type 0 where
  pub model_id : Option String
  pub status : Option String
  pub missing : List String
  pub metrics_is_dict : Bool
  pub rest : Model

pub data RegistryError : Type 0 where
  key_error missing_fields invalid_status bad_metrics : RegistryError
  already_registered unknown_model another_champion : RegistryError
  unfit_status : RegistryError
  wrong_status : Status → RegistryError

pub record Registry : Type 0 where
  pub champion_model_id : Option String
  pub models : Dict String Model

abbrev pub empty : Registry
empty = record { champion_model_id = none; models = [] }

unfoldable pub same_status : Status → Status → Bool
same_status candidate candidate = true
same_status candidate champion = false
same_status candidate rejected = false
same_status candidate retired = false
same_status champion candidate = false
same_status champion champion = true
same_status champion rejected = false
same_status champion retired = false
same_status rejected candidate = false
same_status rejected champion = false
same_status rejected rejected = true
same_status rejected retired = false
same_status retired candidate = false
same_status retired champion = false
same_status retired rejected = false
same_status retired retired = true

-- `validate_status`
unfoldable pub status_of : String → Option Status
status_of s =
    if s == "CANDIDATE"
    then some candidate
    else if s == "CHAMPION"
    then some champion
    else if s == "REJECTED"
    then some rejected
    else if s == "RETIRED"
    then some retired
    else none

with_status : Submission → String → Option Status → Result RegistryError Model
with_status m i none = err invalid_status
with_status m i (some s) =
    if m.metrics_is_dict then ok (record m.rest { model_id = i; status = s }) else err bad_metrics

complete : Submission → List String → Option String → Option String → Result RegistryError Model
unfolding with_status
complete m [] (some i) (some s) = with_status m i (status_of s)
complete m [] none _ = err missing_fields
complete m [] (some i) none = err missing_fields
complete m (f ∷ fs) _ _ = err missing_fields

-- `validate_metadata`
unfoldable pub validate_metadata : Submission → Result RegistryError Model
unfolding complete
validate_metadata m = complete m m.missing m.model_id m.status

-- `self._data["models"][model_id] = metadata`, and the champion's id if that is its status
unfoldable pub with_model : Model → Registry → Registry
with_model m r = record {
  champion_model_id =
      if same_status m.status champion then some m.model_id else r.champion_model_id;
  models = insert m.model_id m r.models;
}

-- The steps of `register_model` after validation.
unfoldable pub store_model : Bool → Model → Exec RegistryError Registry (Unit {0})
store_model overwrite m r =
    if is_some (lookup m.model_id r.models) && not overwrite
    then (err already_registered, r)
    else (ok tt, with_model m r)

-- `register_model`
unfoldable pub register_model : Bool → Submission → Exec RegistryError Registry (Unit {0})
register_model overwrite sub = do m ← lift (validate_metadata sub); store_model overwrite m

-- metadata["status"] != wanted, with the KeyError of a missing key
unfoldable pub status_is : String → Option String → Result RegistryError (Unit {0})
status_is wanted none = err key_error
status_is wanted (some s) = if s == wanted then ok tt else err unfit_status

-- `champion_model_id is not None and champion_model_id != metadata["model_id"]`
unfoldable pub champion_is : Option String → Option String → Result RegistryError (Unit {0})
champion_is none _ = ok tt
champion_is (some c) none = err key_error
champion_is (some c) (some i) = if c == i then ok tt else err another_champion

-- `register_champion`
unfoldable pub register_champion : Submission → Exec RegistryError Registry (Unit {0})
unfolding status_is champion_is
register_champion sub = do
  lift (status_is "CHAMPION" sub.status)
  current ← gets (λ r. r.champion_model_id)
  lift (champion_is current sub.model_id)
  register_model true sub

-- `register_candidate`
unfoldable pub register_candidate : Submission → Exec RegistryError Registry (Unit {0})
unfolding status_is
register_candidate sub = do lift (status_is "CANDIDATE" sub.status); register_model false sub

unfoldable pub or_raise : RegistryError → Option Model → Result RegistryError Model
or_raise e none = err e
or_raise e (some m) = ok m

-- `get_model`
unfoldable pub get_model : String → Exec RegistryError Registry Model
unfolding or_raise
get_model i r = (or_raise unknown_model (lookup i r.models), r)

found_champion : Option Model → Result RegistryError (Option Model)
found_champion none = err key_error
found_champion (some m) = ok (some m)

-- `models[champion_id] if champion_id else None`: the empty id is false too.
pub champion_in : Option String → Dict String Model → Result RegistryError (Option Model)
unfolding found_champion
champion_in none d = ok none
champion_in (some i) d = if i == "" then ok none else found_champion (lookup i d)

-- `get_champion`
unfoldable pub get_champion : Exec RegistryError Registry (Option Model)
unfolding champion_in
get_champion r = (champion_in r.champion_model_id r.models, r)

-- Assignments to the fields of a stored metadata dict.
unfoldable pub change : String → (Model → Model) → Registry → Registry
change i f r = elim (lookup i r.models) [
  | none ↦ r
  | some m ↦ record r { models = insert i (f m) r.models }
]

-- The former champion is retired and kept.
unfoldable pub retire : String → String → String → Model → Model
retire now by why m = record m {
  status = retired;
  retired_at = some now;
  retirement_history =
      m.retirement_history
      ++ record { at = now; approved_by = by; reason = why; previous_champion = none } ∷ [];
}

unfoldable pub id_of : Option Model → Option String
id_of none = none
id_of (some m) = some m.model_id

pub retire_previous : Option Model → String → String → String → Registry → Registry
retire_previous none now by why r = r
retire_previous (some m) now by why r = change m.model_id (retire now by why) r

unfoldable pub crown : String → String → String → Option String → Model → Model
crown now by why previous m = record m {
  status = champion;
  promoted_at = some now;
  promoted_from = previous;
  promotion_history =
      m.promotion_history
      ++ record { at = now; approved_by = by; reason = why; previous_champion = previous } ∷ [];
}

unfoldable pub restore : String → String → String → Option String → Model → Model
restore now by why previous m = record m {
  status = champion;
  promoted_at = some now;
  rollback_history =
      m.rollback_history
      ++ record { at = now; approved_by = by; reason = why; previous_champion = previous } ∷ [];
}

-- The common part of `promote` and `rollback`: retire the champion, then make `i` the champion.
unfoldable pub replace_champion :
    String
    → String
    → String
    → String
    → (Option String → Model → Model)
    → Option Model
    → Registry
    → Registry
unfolding retire_previous
replace_champion i now by why raise_up previous r =
    record (change i (raise_up (id_of previous)) (retire_previous previous now by why r)) {
      champion_model_id = some i;
    }

unfoldable pub replaced :
    String
    → String
    → String
    → String
    → (Option String → Model → Model)
    → Option Model
    → Exec RegistryError Registry Model
unfolding replace_champion
replaced i now by why raise_up previous = do
  modify (replace_champion i now by why raise_up previous)
  get_model i

-- `promote`, at the time `now`
unfoldable pub promote : String → String → String → String → Exec RegistryError Registry Model
unfolding replaced
promote i by why now = do
  m ← get_model i
  lift (Result.raise_if (not (same_status m.status candidate)) (wrong_status m.status))
  previous ← get_champion
  replaced i now by ("Superseded by promotion of '" +++ i +++ "'") (crown now by why) previous

-- `rollback`, at the time `now`
unfoldable pub rollback : String → String → String → String → Exec RegistryError Registry Model
unfolding replaced
rollback i by why now = do
  m ← get_model i
  lift (Result.raise_if (not (same_status m.status retired)) (wrong_status m.status))
  previous ← get_champion
  replaced i now by ("Rolled back in favor of '" +++ i +++ "'") (restore now by why) previous

unfoldable pub change_model : String → (Model → Model) → Exec RegistryError Registry Model
change_model i f = do modify (change i f); get_model i

-- `reject`
unfoldable pub reject : String → String → Exec RegistryError Registry Model
unfolding change_model
reject i why = do
  m ← get_model i
  lift (Result.raise_if (not (same_status m.status candidate)) (wrong_status m.status))
  change_model i (λ x. record x { status = rejected; notes = x.notes +++ "\nRejected: " +++ why })

unfoldable pub values : Dict String Model → List Model
values [] = []
values ((i, m) ∷ d) = m ∷ values d

-- `list_models`
unfoldable pub list_models : Option Status → Registry → List Model
unfolding values
list_models none r = values r.models
list_models (some s) r = keep (λ m. same_status m.status s) (values r.models)
