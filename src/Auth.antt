-- ===== src/Auth.antt =====
-- crates/hmux-gateway/src/auth_store.rs: the accounts, the sessions of their logins and the files that
-- keep both.
pub mod Types
pub mod Files
pub mod Attempts
pub mod Sessions
pub mod Login
pub mod Security
pub mod Calls
pub mod Moves
pub mod Prunes
pub mod Owners
pub mod Logins
pub mod Changes
pub mod Runs
pub mod Table
pub mod Cancelled
pub mod Limit
pub mod Replay
pub mod Access
pub mod Draws
pub mod Ends
mod Examples
