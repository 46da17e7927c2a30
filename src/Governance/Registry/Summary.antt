-- ===== src/Governance/Registry/Summary.antt =====
-- `ModelRegistry.summary` (src/governance/registry.py), without the version and the time of the file.
use real_time_risk_fraud_eng.Prelude.{
  ℕ, ◌+◌, ◌≡◌, refl, String, Option, none, some, [], ◌∷◌, count, length, if◌then◌else◌, arith, inl,
  inr,
}
use real_time_risk_fraud_eng.Prelude.Lists.{length-keep}
use real_time_risk_fraud_eng.Prelude.Keys.{Dict}
use real_time_risk_fraud_eng.Result.{ok, Result-cases}
use real_time_risk_fraud_eng.Exec.{Exec, gets, ◌>>=◌}
use real_time_risk_fraud_eng.Governance.Registry.{
  Registry, Model, Status, candidate, champion, rejected, retired, RegistryError, same_status,
  get_champion, champion_in, list_models, values,
}
use real_time_risk_fraud_eng.Governance.Registry.WellFormed.{IsWellFormed}
use real_time_risk_fraud_eng.Governance.Registry.Succession.{get_champion_ok}

pub record Summary : Type 0 where
  pub champion_model_id : Option String
  pub champion_version : Option String
  pub champion_status : Option Status
  pub n_registered_models : ℕ
  pub n_candidates : ℕ
  pub n_rejected : ℕ
  pub n_retired : ℕ

abbrev field : {A : Type 0} → (Model → A) → Option Model → Option A
field f none = none
field f (some m) = some (f m)

unfoldable pub summary_of : Option Model → Registry → Summary
summary_of leader r = record {
  champion_model_id = field (λ m. m.model_id) leader;
  champion_version = field (λ m. m.model_version) leader;
  champion_status = field (λ m. m.status) leader;
  n_registered_models = length r.models;
  n_candidates = length (list_models (some candidate) r);
  n_rejected = length (list_models (some rejected) r);
  n_retired = length (list_models (some retired) r);
}

-- `summary`
unfoldable pub summary : Exec RegistryError Registry Summary
summary = do leader ← get_champion; gets (summary_of leader)

-- The summary changes nothing, also where it raises.
pub summary_keeps : (r : Registry) → (summary r).1 ≡ r
unfolding summary get_champion
summary_keeps r = elim (Result-cases (champion_in r.champion_model_id r.models)) [
  | inl (m, h) ↦ rw h refl
  | inr (x, h) ↦ rw h refl
]

one_status :
    (s : Status)
    → (if same_status s candidate then 1 else 0)
        + (if same_status s rejected then 1 else 0)
        + (if same_status s retired then 1 else 0)
        + (if same_status s champion then 1 else 0)
      ≡ 1
unfolding same_status
one_status candidate = refl
one_status champion = refl
one_status rejected = refl
one_status retired = refl

count_by : Status → Dict String Model → ℕ
unfolding count
count_by s d = count (λ m. same_status m.status s) (values d)

statuses :
    (d : Dict String Model)
    → count_by candidate d + count_by rejected d + count_by retired d + count_by champion d
      ≡ length d
unfolding count_by values
statuses [] = refl
statuses ((i, m) ∷ d) = omega (arith, one_status m.status, statuses d)

listed : (s : Status) (r : Registry) → length (list_models (some s) r) ≡ count_by s r.models
unfolding list_models count_by
listed s r = length-keep (λ (m : Model). same_status m.status s) (values r.models)

-- On a well-formed registry the summary does not raise; the candidates, the rejected, the retired and the
-- models listed as CHAMPION together are all the models.
summary_accounts :
    (r : Registry)
    → IsWellFormed r
    → (s : Summary) × (summary r ≡ (ok s, r))
      × (s.n_candidates + s.n_rejected + s.n_retired + length (list_models (some champion) r)
          ≡ s.n_registered_models)
unfolding summary summary_of
summary_accounts r w =
    let (p, reign, got) = get_champion_ok r w in
    (
      summary_of p r,
      rw got refl,
      omega (
        arith,
        listed candidate r,
        listed rejected r,
        listed retired r,
        listed champion r,
        statuses r.models,
      ),
    )
