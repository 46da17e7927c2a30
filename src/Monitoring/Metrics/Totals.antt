-- ===== src/Monitoring/Metrics/Totals.antt =====
-- The sum of the counters of a dict, and what a bump adds to it.
use real_time_risk_fraud_eng.Prelude.{ℕ, ◌+◌, ◌≤◌, ◌≡◌, refl, String, [], ◌∷◌, arith}
use real_time_risk_fraud_eng.Prelude.Keys.{Hashable, Dict, lookup, insert, str_key}
use real_time_risk_fraud_eng.Monitoring.Metrics.{plus_one, bump, bump_known}

-- sum(d.values())
abbrev pub total : {K : Type 0} → Dict K ℕ → ℕ
total [] = 0
total ((k, n) ∷ d) = n + total d

pub total-bump :
    {K : Type 0} ⦃e : Hashable K⦄ (k : K) (d : Dict K ℕ) → total (bump k d) ≡ total d + 1
unfolding bump plus_one lookup insert
total-bump k [] = refl
total-bump k ((j, n) ∷ d) = ground (arith, total-bump k d)

pub total-bump_known : (k : String) (d : Dict String ℕ) → total (bump_known k d) ≤ total d + 1
unfolding bump_known
total-bump_known k d = ground (arith, total-bump k d)
