-- ===== src/Monitoring.antt =====
-- Observation of the running service (src/monitoring/).
pub mod Metrics
pub mod DataQuality
