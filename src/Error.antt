-- ===== src/Error.antt =====
-- The error values of error.rs. A `String` inside an error is its list of UTF-8 bytes.
pub mod Reasons
pub mod Display
use proxy_protocol_rs.Prelude.{ℕ, List}
use proxy_protocol_rs.Std.Io.{IoError}
use proxy_protocol_rs.Std.Net.{SocketAddr}

pub data InvalidReason : Type 0 where
  unsupported_version unknown_command unknown_family unknown_protocol : ℕ → InvalidReason
  v1_too_long v1_not_utf8 v1_invalid_format unspec_with_proxy : InvalidReason
  v1_unknown_transport invalid_ip invalid_port : List ℕ → InvalidReason
  payload_overflow : ℕ → ℕ → InvalidReason
  malformed_tlv : ℕ → InvalidReason

pub data ParseError : Type 0 where
  not_proxy_protocol incomplete : ParseError
  invalid : InvalidReason → ParseError
  crc_mismatch : ℕ → ℕ → ParseError

-- The reasons that vendor/ gives, one for each text, with what stands in the text.
pub data ValueReason : Type 0 where
  vpce_not_utf8 : ValueReason
  vpce_characters : List ℕ → ValueReason
  link_id_length : ℕ → ValueReason
  connection_id_length : ℕ → ValueReason

pub data TlvParseError : Type 0 where
  malformed_sub_tlv : ℕ → TlvParseError
  invalid_value : ValueReason → TlvParseError

-- The reason of a validator, a boxed error, is its text.
pub data AcceptError : Type 0 where
  io : IoError → AcceptError
  rejected header_timeout empty_connection version_mismatch : SocketAddr → AcceptError
  parse_failed : ParseError → SocketAddr → AcceptError
  validation_failed : List ℕ → SocketAddr → AcceptError
