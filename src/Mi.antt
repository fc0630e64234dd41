-- ===== src/Mi.antt =====
-- src/core/mi: the management interface.
mod Tests
pub mod Attr
