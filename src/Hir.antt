-- ===== src/Hir.antt =====
-- hir
pub mod Types
