-- ===== src/Commands.antt =====
-- The workflow commands of crates/gitzero-agent/src/executor.rs: what a step writes to its log is
-- read for commands, masked, and annotated.
pub mod RunSecrets
pub mod Kept
pub mod AnnotationBounds
pub mod MaskLine
pub mod Steps
pub mod Guarded
pub mod Texts
pub mod Relayed
pub mod Secrets
pub mod Stopped
pub mod LogSound
pub mod LineSound
pub mod Counted
pub mod Bounded
pub mod Relay
pub mod Log
pub mod Line
pub mod Legacy
pub mod State
pub mod Annotation
pub mod Paths
pub mod Escape
pub mod Syntax
pub mod Hidden
pub mod MaskLists
pub mod Masks
mod Tests
