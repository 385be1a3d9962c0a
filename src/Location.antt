-- ===== src/Location.antt =====
-- crates/hmux-gateway/src/session_location.rs: the labels of the addresses of logins, with their cache
-- and the lookups in flight.
pub mod Address
pub mod Ranges
pub mod Lookup
pub mod Bounds
pub mod Owner
mod Examples
