-- ===== src/Schedule.antt =====
-- The parts of crates/gitzero-agent/src/executor.rs that decide which jobs run.
pub mod Allowed
pub mod Needs
pub mod FailFast
pub mod Processes
pub mod Groups
pub mod Conditions
mod Tests
pub mod Parallel
pub mod Reusable
pub mod Worst
pub mod Conclusions
