-- ===== src/Drift/Categorical.antt =====
-- Drift of a categorical column: the profile of the reference (src/drift/reference.py) and the comparison of
-- a batch with it (src/drift/detectors.py). `value_counts` of pandas and NumPy's logarithm and sum are
-- parameters, and so is the order of strings.
pub mod Surfacing
pub mod Grouping
pub mod Unchanged
pub mod Tests
use real_time_risk_fraud_eng.Prelude.{
  ℕ, Bool, true, false, not, ◌&&◌, String, Option, none, some, List, [], ◌∷◌, ◌++◌, map, length,
  keep, if◌then◌else◌,
}
use real_time_risk_fraud_eng.Prelude.Keys.{Dict, lookup, insert, str_key, ◌==◌}
use real_time_risk_fraud_eng.Prelude.Distinct.{keys, elem}
use real_time_risk_fraud_eng.Float.{Float, lt, le, max, zero_float, dyadic, Arithmetic}
use real_time_risk_fraud_eng.Features.Columns.{zip_with}
use real_time_risk_fraud_eng.Drift.Report.{Severity, severity_from_psi}

-- OTHER_BUCKET_LABEL
abbrev pub other_label : String
other_label = "__OTHER__"

-- PSI_EPS
unfoldable pub psi_eps : Float
psi_eps = dyadic 7378697629483821 66

pub record CategoricalProfile : Type 0 where
  pub category_frequencies : Dict String Float
  pub all_reference_categories : Option (List String)

pub record CategoricalDrift : Type 0 where
  pub psi : Float
  pub new_categories : List String
  pub missing_categories : List String
  pub n_current : ℕ
  pub current_frequencies : Dict String Float
  pub severity : Severity

-- What the statistics come from; `value_counts` is that of the column as strings, with normalize=True.
pub record Statistics : Type 0 where
  pub value_counts : List String → Dict String Float
  pub log : Float → Float
  pub total : List Float → Float
  pub before : String → String → Bool

unfoldable pub insert_sorted : (String → String → Bool) → String → List String → List String
insert_sorted before c [] = c ∷ []
insert_sorted before c (d ∷ ds) = if before c d then c ∷ d ∷ ds else d ∷ insert_sorted before c ds

-- sorted(names)
unfoldable pub sorted : (String → String → Bool) → List String → List String
unfolding insert_sorted
sorted before [] = []
sorted before (c ∷ cs) = insert_sorted before c (sorted before cs)

-- xs - ys, of sets
unfoldable pub without : List String → List String → List String
without xs ys = keep (λ c. not (elem c ys)) xs

-- d.get(c, 0.0)
unfoldable pub or_zero : Option Float → Float
or_zero none = zero_float
or_zero (some x) = x

module _ (A : Arithmetic) (S : Statistics) where
  -- The loop of both functions: what passes the test is kept under its name, the rest is summed up.
  unfoldable pub grouped :
      (String → Float → Bool)
      → Dict String Float
      → Dict String Float
      → Float
      → Dict String Float × Float
  grouped test [] kept other = (kept, other)
  grouped test ((c, freq) ∷ raw) kept other =
      let passes = test c freq in
      grouped test raw (if passes then insert c freq kept else kept)
        (if passes then other else A.add other freq)

  -- if other_total > 0: grouped[OTHER_BUCKET_LABEL] = other_total
  unfoldable pub with_other : Dict String Float × Float → Dict String Float
  with_other (kept, other) = if lt zero_float other then insert other_label other kept else kept

  -- `categorical_feature_profile`
  unfoldable pub categorical_feature_profile : List String → Float → CategoricalProfile
  unfolding grouped with_other sorted
  categorical_feature_profile values min_freq =
      let raw = S.value_counts values in
      record {
        category_frequencies = with_other (grouped (λ c freq. le min_freq freq) raw [] zero_float);
        all_reference_categories = some (sorted S.before (keys raw));
      }

  -- `_psi_from_percentages`
  unfoldable pub psi_from_percentages : List Float → List Float → Float
  unfolding zip_with psi_eps
  psi_from_percentages ref_pct cur_pct =
      let clip = map (λ x. max x psi_eps) in
      S.total
        (zip_with (λ r c. A.mul (A.sub c r) (S.log (A.div c r))) (clip ref_pct) (clip cur_pct))

  -- reference_profile.get("all_reference_categories", ref_freq.keys())
  unfoldable pub known_categories : CategoricalProfile → List String
  known_categories r = elim r.all_reference_categories [
    | none ↦ keys r.category_frequencies
    | some cs ↦ cs
  ]

  -- set(ref_freq.keys()) - {OTHER_BUCKET_LABEL}
  unfoldable pub kept_categories : Dict String Float → List String
  unfolding without
  kept_categories freq = without (keys freq) (other_label ∷ [])

  -- sorted(set(ref_freq) | set(grouped_cur_freq))
  unfoldable pub all_categories : Dict String Float → Dict String Float → List String
  unfolding sorted without
  all_categories ref cur = sorted S.before (keys ref ++ without (keys cur) (keys ref))

  unfoldable pub percentages : Dict String Float → List String → List Float
  unfolding or_zero
  percentages freq categories = map (λ c. or_zero (lookup c freq)) categories

  -- The frequencies of a batch, grouped as those of the reference are.
  unfoldable pub grouped_current : Dict String Float → Dict String Float → Dict String Float
  unfolding kept_categories grouped with_other
  grouped_current ref raw =
      with_other (grouped (λ c freq. elem c (kept_categories ref)) raw [] zero_float)

  -- `compute_categorical_drift`
  unfoldable pub compute_categorical_drift : CategoricalProfile → List String → CategoricalDrift
  unfolding grouped_current all_categories percentages psi_from_percentages known_categories without
      sorted
  compute_categorical_drift r values =
      let ref = r.category_frequencies in
      let raw = S.value_counts values in
      let cur = grouped_current ref raw in
      let categories = all_categories ref cur in
      let psi = psi_from_percentages (percentages ref categories) (percentages cur categories) in
      record {
        psi = psi;
        new_categories = sorted S.before (without (keys raw) (known_categories r));
        missing_categories = sorted S.before (without (known_categories r) (keys raw));
        n_current = length values;
        current_frequencies = raw;
        severity = severity_from_psi psi;
      }

  -- `compute_decision_drift`, without the copy of the reference's frequencies
  unfoldable pub compute_decision_drift : Dict String Float → List String → CategoricalDrift
  unfolding compute_categorical_drift
  compute_decision_drift ref values =
      compute_categorical_drift
        (record { category_frequencies = ref; all_reference_categories = none }) values
