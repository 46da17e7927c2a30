-- ===== src/Features.antt =====
-- The offline features (src/features/).
pub mod Columns
pub mod Behavioral
pub mod Tests
