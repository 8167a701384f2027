-- ===== src/Mir/Monomorphize.antt =====
-- crates/tn-mir/src/monomorphize.rs: the substitution of types for generic parameters.
pub mod Types
pub mod Matching
pub mod Bodies
pub mod Instances
pub mod Discovery
pub mod Queue
pub mod Samples
pub mod Witnesses
