-- ===== src/Parser/Params.antt =====
-- src/core/parser/parse_param.c and parse_param.h.
pub mod Types
pub mod Rounds
pub mod Lists
pub mod Inside
pub mod Owned
pub mod Ttl
pub mod Copy
pub mod Reads
pub mod Hooked
pub mod Roundtrip
