-- ===== src/State.antt =====
-- Behavioural state of the online engine (src/engine/state.py, src/engine/state_backend.py).
pub mod Entity
pub mod Backend
pub mod Manager
pub mod Tests
