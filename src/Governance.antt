-- ===== src/Governance.antt =====
-- Model governance (src/governance/): the registry with its lifecycle, the compatibility checks and
-- the promotion gates.
pub mod Registry
pub mod Gates
