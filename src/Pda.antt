-- ===== src/Pda.antt =====
-- protocols/pda/: the observer of programmer tasks, the restoration of a PDA panel, and its sleep.
pub mod Programmer
pub mod Restoration
pub mod Sleep
