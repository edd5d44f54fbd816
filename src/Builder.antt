-- ===== src/Builder.antt =====
-- builder.rs: the header builder.
pub mod Encode
pub mod Calls
pub mod Ssl
pub mod Header
pub mod Writing
