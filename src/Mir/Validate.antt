-- ===== src/Mir/Validate.antt =====
-- crates/tn-mir/src/validate.rs: the validator of MIR bodies. `Check` is the state that its
-- functions share, the others follow the source's functions from places up to the whole body.
pub mod Check
pub mod Places
pub mod Rvalues
pub mod Statements
pub mod Worklist
pub mod Bodies
pub mod Monotone
pub mod Edges
pub mod Sound
pub mod Structure
