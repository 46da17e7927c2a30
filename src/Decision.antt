-- ===== src/Decision.antt =====
-- The three-way decision policy and its evaluation (src/decision/).
pub mod Policy
pub mod Evaluation
pub mod Threshold
pub mod Comparison
