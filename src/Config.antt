-- ===== src/Config.antt =====
-- The package `config`: the environment model and its normalisation (config/*.go).
pub mod Keys
pub mod Values
pub mod Types
pub mod Tools
pub mod Services
pub mod Settings
pub mod Database
pub mod Server
pub mod Memory
pub mod Opcache
pub mod Extensions
pub mod Workers
pub mod Environments
