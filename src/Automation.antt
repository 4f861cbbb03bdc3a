-- ===== src/Automation.antt =====
-- internal/automation: conditions, run modes, triggers and reloads.
pub mod Condition
pub mod Mode
pub mod Trigger
pub mod Reload
mod Tests
