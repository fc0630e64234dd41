-- ===== src/Parser/Uri.antt =====
-- src/core/parser/parse_uri.c.
pub mod State
pub mod Cases
pub mod Step
pub mod Parse
pub mod Msg
pub mod Inside
pub mod Reads
pub mod Roundtrip
pub mod Omitted
