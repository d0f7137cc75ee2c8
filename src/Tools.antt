-- ===== src/Tools.antt =====
-- The package `tools`: managed tools, their registry and downloads (tools/*.go).
pub mod Layers
pub mod Transfer
pub mod Chunks
pub mod Probe
pub mod Registry
pub mod Planning
pub mod Dispatch
pub mod Validation
pub mod Builtin
pub mod Checksum
pub mod Version
pub mod Constraint
