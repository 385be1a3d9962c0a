-- ===== src/Workflow.antt =====
-- crates/hmux-home/src/workflow.rs: the workflows that the hooks of agents report.
pub mod Types
pub mod Texts
pub mod Items
pub mod Hooks
pub mod Files
pub mod Update
pub mod View
pub mod Active
pub mod Writes
pub mod Private
pub mod Runs
pub mod Agreement
pub mod Minimum
pub mod Prunes
pub mod Parents
pub mod Families
pub mod Recorded
pub mod Endings
pub mod Finished
pub mod Prompts
pub mod Shown
pub mod Fits
mod Samples
mod Examples
