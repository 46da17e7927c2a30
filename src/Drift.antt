-- ===== src/Drift.antt =====
-- Drift monitoring (src/drift/): severities, the report on a batch, and the monitor's state.
pub mod Report
pub mod Monitor
pub mod Categorical
pub mod Tests
