-- ===== src/Feature.antt =====
-- Features: whether one is already installed, what the user's order says, and what a lockfile pins.
pub mod Match
pub mod Order
pub mod Lockfile
pub mod Options
pub mod Graph
pub mod Install
pub mod Label
