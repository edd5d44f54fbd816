-- ===== src/Error/Display.antt =====
-- The texts of the errors of error.rs. That of `TlvParseError` is left out: it may quote a text in
-- its `Debug` form.
use proxy_protocol_rs.Prelude.{ℕ, List, ◌++◌}
use proxy_protocol_rs.Std.IpDisplay.{show_dec}
use proxy_protocol_rs.Std.Text.{text, show_alternate_hex, show_padded_hex, show_socket}
use proxy_protocol_rs.Error.{
  InvalidReason, unsupported_version, unknown_command, unknown_family, unknown_protocol,
  v1_too_long, v1_not_utf8, v1_invalid_format, unspec_with_proxy, v1_unknown_transport, invalid_ip,
  invalid_port, payload_overflow, malformed_tlv, ParseError, not_proxy_protocol, incomplete,
  invalid, crc_mismatch, AcceptError, io, rejected, header_timeout, empty_connection,
  version_mismatch, parse_failed, validation_failed,
}

unfoldable pub show_reason : InvalidReason → List ℕ
unfolding show_alternate_hex show_dec
show_reason (unsupported_version v) = text "unsupported protocol version: " ++ show_alternate_hex v
show_reason (unknown_command v) = text "unknown command nibble: " ++ show_alternate_hex v
show_reason (unknown_family v) = text "unknown address family: " ++ show_alternate_hex v
show_reason (unknown_protocol v) = text "unknown transport protocol: " ++ show_alternate_hex v
show_reason v1_too_long = text "v1 header exceeds 107-byte limit"
show_reason v1_not_utf8 = text "v1 header not valid UTF-8"
show_reason v1_invalid_format = text "v1 invalid format: expected 6 space-separated fields"
show_reason (v1_unknown_transport t) = text "v1 unknown transport: " ++ t
show_reason (invalid_ip t) = text "invalid IP address: " ++ t
show_reason (invalid_port t) = text "invalid port: " ++ t
show_reason unspec_with_proxy = text "PROXY command requires a concrete address family and protocol"
show_reason (payload_overflow len buf_len) =
    text "payload length "
    ++ (show_dec len ++ (text " exceeds buffer (" ++ (show_dec buf_len ++ text " available)")))
show_reason (malformed_tlv offset) = text "malformed TLV at offset " ++ show_dec offset

unfoldable pub show_parse_error : ParseError → List ℕ
unfolding show_reason show_padded_hex
show_parse_error not_proxy_protocol = text "data does not begin with a Proxy Protocol signature"
show_parse_error incomplete = text "incomplete header, need more data"
show_parse_error (invalid r) = text "malformed Proxy Protocol header: " ++ show_reason r
show_parse_error (crc_mismatch expected actual) =
    text "CRC32c mismatch: expected "
    ++ (show_padded_hex expected ++ (text ", got " ++ show_padded_hex actual))

unfoldable pub show_accept_error : AcceptError → List ℕ
unfolding show_parse_error show_socket
show_accept_error (io e) = text "I/O error: " ++ e.message
show_accept_error (rejected peer) =
    text "connection from " ++ (show_socket peer ++ text " rejected by policy")
show_accept_error (header_timeout peer) =
    text "Proxy Protocol header timeout from " ++ show_socket peer
show_accept_error (empty_connection peer) = text "empty connection from " ++ show_socket peer
show_accept_error (parse_failed e peer) =
    text "Proxy Protocol parse error from "
    ++ (show_socket peer ++ (text ": " ++ show_parse_error e))
show_accept_error (validation_failed reason peer) =
    text "header validation failed from " ++ (show_socket peer ++ (text ": " ++ reason))
show_accept_error (version_mismatch peer) =
    text "unwanted Proxy Protocol version from " ++ show_socket peer
