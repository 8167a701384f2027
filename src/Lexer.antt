-- ===== src/Lexer.antt =====
-- crates/tn-syntax/src/lexer.rs
pub mod Tokens
pub mod Scan
pub mod Templates
pub mod Literals
pub mod Escapes
pub mod Source
pub mod Input
pub mod Tests
pub mod Witnesses
