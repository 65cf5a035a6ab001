-- ===== src/Engine.antt =====
-- The engine (the package at the root of the repository): lifecycle phases, the lockfile, secrets.
pub mod Lifecycle
pub mod Phases
pub mod Lock
pub mod Layering
pub mod Secrets
