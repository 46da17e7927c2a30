-- ===== src/Governance/Registry/Tests.antt =====
-- A registry with a champion and a candidate, and the calls on it.
use text.Mathlib.TextEquality.{eq_iff}
use real_time_risk_fraud_eng.Prelude.{
  ◌≡◌, ◌⊎◌, refl, none, some, List, ◌∷◌, [], String, true, inl, inr, arith, All, if◌then◌else◌,
}
use real_time_risk_fraud_eng.Prelude.Keys.{lookup, str_key, ◌==◌}
use real_time_risk_fraud_eng.Result.{ok}
use real_time_risk_fraud_eng.Governance.Registry.{
  Registry, Model, Submission, champion, candidate, promote, rollback, empty, crown, restore,
  retire,
}
use real_time_risk_fraud_eng.Governance.Registry.WellFormed.{IsWellFormed}
use real_time_risk_fraud_eng.Governance.Registry.Lifecycle.{
  Op, enter, store_new, install_first, promoting, rolling_back, IsNamed, run, storing, perform,
  crowns, empty-IsWellFormed, run-IsWellFormed, champion_moves,
}
use real_time_risk_fraud_eng.Governance.Registry.Handover.{
  superseded, rolled_back, promote_hands_over, rollback-promote,
}

abbrev old : Model
old = record {
  model_id = "old";
  model_version = "1";
  status = champion;
  notes = "";
  promoted_at = none;
  promoted_from = none;
  retired_at = none;
  promotion_history = [];
  retirement_history = [];
  rollback_history = [];
}

abbrev new : Model
new = record old { model_id = "new"; status = candidate }

abbrev spare : Model
spare = record new { model_id = "spare" }

abbrev submitted : Model → String → Submission
submitted m word = record {
  model_id = some m.model_id;
  status = some word;
  missing = [];
  metrics_is_dict = true;
  rest = m;
}

abbrev setup : List Op
setup =
    install_first (submitted old "CHAMPION")
    ∷ enter (submitted new "CANDIDATE")
    ∷ store_new (submitted spare "REJECTED")
    ∷ promoting "new" "ann" "better" "t1"
    ∷ rolling_back "old" "ann" "worse" "t2"
    ∷ []

setup-IsNamed : All IsNamed setup
setup-IsNamed = (
  λ h. cc,
  (λ h. cc, ((λ h. cc, λ h. ground (arith, eq_iff "REJECTED" "CHAMPION")), (tt, (tt, tt)))),
)

run-IsWellFormed_example : IsWellFormed (run setup empty)
run-IsWellFormed_example = run-IsWellFormed setup setup-IsNamed empty empty-IsWellFormed

abbrev two : Registry
two = record { champion_model_id = some "old"; models = ("old", old) ∷ ("new", new) ∷ [] }

two_names : (i : String) (m : Model) → lookup i two.models ≡ some m → ("old" ≡ i) ⊎ ("new" ≡ i)
unfolding lookup
two_names i m h = ground (arith, eq_iff "old" i, eq_iff "new" i)

two-IsWellFormed : IsWellFormed two
unfolding lookup
two-IsWellFormed = record {
  own_id = λ i m h. ground (arith, eq_iff "old" i, eq_iff "new" i);
  named = λ i m h. elim (two_names i m h) [
    | inl first ↦ rw⁻¹ first refl
    | inr second ↦ rw⁻¹ second refl
  ];
  pointer = λ i h. (old, ground (arith, eq_iff "old" i), refl);
  unique = λ i m h c. ground (arith, eq_iff "old" i, eq_iff "new" i);
}

old_found : lookup "old" two.models ≡ some old
unfolding lookup
old_found = refl

new_found : lookup "new" two.models ≡ some new
unfolding lookup
new_found = refl

champion_moves_example :
    ((perform (storing true (submitted new "CHAMPION")) two).champion_model_id ≡ some "old")
    ⊎ ((i : String) × (crowns (storing true (submitted new "CHAMPION")) ≡ some i)
        × ((perform (storing true (submitted new "CHAMPION")) two).champion_model_id ≡ some i))
champion_moves_example =
    champion_moves (storing true (submitted new "CHAMPION")) tt two two-IsWellFormed "old" refl

promote_hands_over_example :
    (s : Registry) × (promote "new" "ann" "better" "t1" two
      ≡ (ok (crown "t1" "ann" "better" (some "old") new), s))
    × (IsWellFormed s)
    × (s.champion_model_id ≡ some "new")
    × ((j : String)
        → lookup j s.models ≡ (
            if "new" == j
            then some (crown "t1" "ann" "better" (some "old") new)
            else if "old" == j
            then some (retire "t1" "ann" (superseded "new") old)
            else lookup j two.models))
promote_hands_over_example =
    promote_hands_over two two-IsWellFormed "new" "ann" "better" "t1" "old" new old new_found refl
      refl old_found

rollback-promote_example :
    (s : Registry) × (rollback "old" "ann" "worse" "t2" (promote "new" "ann" "better" "t1" two).1
      ≡ (
        ok (restore "t2" "ann" "worse" (some "new") (retire "t1" "ann" (superseded "new") old)),
        s,
      ))
    × (s.champion_model_id ≡ some "old")
    × ((j : String)
        → lookup j s.models ≡ (
            if "old" == j
            then some
                (restore "t2" "ann" "worse" (some "new") (retire "t1" "ann" (superseded "new") old))
            else if "new" == j
            then some
                (retire "t2" "ann" (rolled_back "old") (crown "t1" "ann" "better" (some "old") new))
            else lookup j two.models))
rollback-promote_example =
    rollback-promote two two-IsWellFormed "new" "ann" "better" "t1" "old" new old new_found refl
      refl old_found "ann" "worse" "t2"
