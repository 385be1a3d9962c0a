-- ===== src/Snapshots.antt =====
-- crates/hmux-protocol/src/snapshots.rs: the catalog between its model and its protobuf form, with the
-- bounds that both forms keep.
pub mod Proto
pub mod Check
pub mod Convert
pub mod Budget
pub mod Typed
pub mod Agree
pub mod RoundTrip
pub mod Cost
mod Examples
