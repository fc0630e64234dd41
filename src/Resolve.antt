-- ===== src/Resolve.antt =====
-- src/core/resolve: what is done with the records of a DNS answer.
pub mod Records
pub mod Naptr
pub mod Srvs
mod Tests
