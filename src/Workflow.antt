-- ===== src/Workflow.antt =====
-- crates/gitzero-workflow/src/lib.rs: the planning of a workflow file.
pub mod ChangedPaths
pub mod Triggers
pub mod Globs
mod Tests
pub mod MatrixInclude
pub mod MatrixBounds
pub mod Matrix
pub mod Access
pub mod Permissions
pub mod Yaml
pub mod Depth
pub mod Faults
pub mod Accepted
pub mod Acyclic
pub mod Dependencies
