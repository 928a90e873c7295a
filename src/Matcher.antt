-- ===== src/Matcher.antt =====
-- crates/gitzero-agent/src/problem_matcher.rs: the matchers that find problems in a log.
pub mod Steps
pub mod Invariant
pub mod Rescan
pub mod Active
pub mod Scan
pub mod Registry
pub mod Report
pub mod Compiled
pub mod Total
pub mod Lines
pub mod Patterns
mod Tests
