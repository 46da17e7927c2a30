-- ===== src/Evaluation.antt =====
-- Evaluation of scores against labels (src/evaluation/).
pub mod Operational
