-- ===== src/Service.antt =====
-- The package `service`: what runs in the background (service/*.go).
pub mod Processes
pub mod Workers
