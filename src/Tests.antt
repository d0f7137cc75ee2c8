-- ===== src/Tests.antt =====
-- The theorems at concrete inputs, and runs of the definitions.
mod Transfers
mod Layering
mod Probes
mod Registries
mod Plans
mod Versions
mod Checksums
mod Running
mod Backends
mod Settings
mod Extensions
mod Environments
mod Values
