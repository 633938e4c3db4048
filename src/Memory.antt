-- ===== src/Memory.antt =====
-- backend/app/memory.
pub mod ShortTerm
