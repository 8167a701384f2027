-- ===== src/Mir.antt =====
-- crates/tn-mir.
pub mod Syntax
pub mod ErrorLowering
pub mod Targets
pub mod Compatible
pub mod Validate
pub mod Drops
pub mod Monomorphize
pub mod Samples
pub mod Tests
pub mod Witnesses
