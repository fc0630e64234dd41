-- ===== src/Parser.antt =====
-- src/core/parser and the text helpers of src/core: code that walks over bytes in memory.
mod Tests
pub mod Memory
pub mod Trim
pub mod Method
pub mod Methods
pub mod Uri
pub mod Params
