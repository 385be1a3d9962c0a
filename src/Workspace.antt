-- ===== src/Workspace.antt =====
-- crates/hmux-model/src/workspace.rs: the tabs that the devices of an account share.
pub mod State
pub mod Merge
pub mod Reconcile
pub mod Members
pub mod Merged
pub mod Rebase
pub mod Retry
mod Examples
