-- ===== src/Hub.antt =====
-- crates/hmux-gateway/src/hub.rs: one authenticated Home connection and its fan-out to the HTTP
-- owners. `State` has the types, `Peers` the connection's life, `Leases` what the owners open and
-- close, `Dispatch` the messages of Home.
pub mod Ids
pub mod State
pub mod Peers
pub mod Leases
pub mod Dispatch
pub mod Uploads
pub mod Reads
pub mod Handle
pub mod Holds
pub mod Invariant
pub mod Keeps
pub mod Removes
pub mod Receives
pub mod Reading
pub mod Runs
pub mod Generations
mod Examples
