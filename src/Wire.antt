-- ===== src/Wire.antt =====
-- crates/hmux-protocol/src/wire.rs: the JSON envelope between gateway and Home, its bounded writer
-- and the limits of its fields. A text is the list of its bytes.
pub mod Writer
pub mod Codec
pub mod Spec
pub mod Emit
pub mod Streaming
pub mod Limits
mod Examples
