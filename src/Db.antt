-- ===== src/Db.antt =====
-- src/core/db: the identifier of a database connection.
mod Tests
pub mod Url
