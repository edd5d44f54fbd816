-- ===== src/Std.antt =====
-- The parts of Rust's standard library that the program uses.
pub mod Net
pub mod Utf8
pub mod Ascii
pub mod Text
pub mod Io
pub mod IpText
pub mod IpDisplay
pub mod IpRanges
pub mod IpGraphic
pub mod Digits
pub mod Decimal
pub mod Plain
pub mod Ipv4Text
pub mod Hex
pub mod HexGroup
pub mod ZeroRuns
pub mod Ipv6Groups
pub mod Ipv6Read
pub mod Ipv6Text
