-- ===== src/Backend.antt =====
-- The package `backend`: project state (backend/*.go).
pub mod State
