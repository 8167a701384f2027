-- ===== src/Mir/Drops.antt =====
-- crates/tn-mir/src/drop_elaboration.rs: drop flags and cleanup chains. An identity that does not
-- fit a u32 is a panic in the source; the model has no such limit. An edge to a block that is not
-- there is an index panic in the source; the model reads no state there.
pub mod Semantics
pub mod Instrument
pub mod Storage
pub mod Active
pub mod Cleanup
pub mod Elaborate
