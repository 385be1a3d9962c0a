-- ===== src/Model.antt =====
-- crates/hmux-model/src/lib.rs: the records of the catalog and the checks of ids. A text is the list of
-- its bytes.
pub mod Ids
pub mod Catalog
