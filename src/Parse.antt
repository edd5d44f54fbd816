-- ===== src/Parse.antt =====
-- parse/mod.rs: the entry point, which looks at the first bytes and calls a parser.
pub mod Wire
pub mod Tlv
pub mod V2
pub mod V1
pub mod Header
mod Tests
