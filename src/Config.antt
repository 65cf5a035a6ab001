-- ===== src/Config.antt =====
-- The config package: the types, variable substitution, the merging of metadata layers.
pub mod Types
pub mod Decode
pub mod Defaults
pub mod Substitute
pub mod Layers
pub mod Merge
