-- ===== src/Compose.antt =====
-- The compose package: projects, the service graph, plans.
pub mod Project
pub mod Graph
pub mod Plan
pub mod Runtime
pub mod RunSpec
pub mod Orchestrator
pub mod Samples
