-- ===== src/Quota.antt =====
-- crates/hmux-usage/src/quota_state.rs: when Home fetches a quota, and what it serves in between.
pub mod Types
pub mod Cache
pub mod Results
pub mod Fetches
pub mod Suspension
pub mod Steps
pub mod Sequence
mod Examples
