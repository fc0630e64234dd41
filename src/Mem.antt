-- ===== src/Mem.antt =====
-- src/core/mem: the allocators.
pub mod Word
pub mod Frag
pub mod Free
pub mod Qm
pub mod Realloc
mod Tests
