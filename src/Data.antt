-- ===== src/Data.antt =====
-- Preparation of the data (src/data/).
pub mod Split
pub mod Tests
