-- ===== src/Engine.antt =====
-- engine/: restoration, stability of equipment, and the actions on it.
pub mod Restoration
pub mod Stability
pub mod Runtime
pub mod Actions
