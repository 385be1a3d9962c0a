-- ===== src/Receipts.antt =====
-- crates/hmux-gateway/src/tab_completions.rs: the ledger of completed turns and the read receipts of
-- the accounts, each kept in memory and in a file of a private directory.
pub mod Types
pub mod Storage
pub mod Record
pub mod Acknowledge
pub mod Files
pub mod Recorded
pub mod Answers
pub mod Coherence
pub mod Repeats
pub mod Unread
mod Examples
