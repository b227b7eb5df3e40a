-- ===== src/Tests.antt =====
-- Runs on concrete inputs, and the properties applied to them.
pub mod Serial
pub mod Panels
pub mod Scenarios
pub mod Reports
pub mod Actions
pub mod Supervising
pub mod Sleeping
pub mod Clocks
pub mod Logs
