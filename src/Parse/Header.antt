-- ===== src/Parse/Header.antt =====
-- parse/mod.rs: `parse`, which looks at the first bytes and calls the parser of a version.
pub mod Total
pub mod Frame
pub mod Consumed
pub mod Consistent
pub mod Counted
pub mod Ranges
pub mod Errors
use proxy_protocol_rs.Prelude.{
  ℕ, ◌==◌, ltb, if◌then◌else◌, List, [], ◌∷◌, length, slice, bytes_eq, starts_with, Outcome, err,
  ◌>>=◌, ◌>>◌, fail_if,
}
use proxy_protocol_rs.Types.{ProxyInfo}
use proxy_protocol_rs.Error.{ParseError, incomplete, not_proxy_protocol}
use proxy_protocol_rs.Crc.{Crc32c}
use proxy_protocol_rs.Parse.V1.{parse_v1}
use proxy_protocol_rs.Parse.V2.{parse_v2}

-- `V2_SIGNATURE`
abbrev pub v2_signature : List ℕ
v2_signature =
    0x0d ∷ 0x0a ∷ 0x0d ∷ 0x0a ∷ 0x00 ∷ 0x0d ∷ 0x0a ∷ 0x51 ∷ 0x55 ∷ 0x49 ∷ 0x54 ∷ 0x0a ∷ []

-- "PROXY "
abbrev pub v1_prefix : List ℕ
v1_prefix = b'P' ∷ b'R' ∷ b'O' ∷ b'X' ∷ b'Y' ∷ b' ' ∷ []

-- The branch on 'P'
unfoldable pub parse_text : List ℕ → Outcome (ProxyInfo × ℕ) ParseError
parse_text buf = do
  fail_if (ltb (length buf) 6) incomplete
  if starts_with buf v1_prefix then parse_v1 buf else err not_proxy_protocol

module _ (c : Crc32c) where
  -- The branch on 0x0D
  unfoldable pub parse_binary : List ℕ → Outcome (ProxyInfo × ℕ) ParseError
  parse_binary buf = do
    fail_if (ltb (length buf) 12) incomplete
    first ← slice buf 0 12
    if bytes_eq first v2_signature then parse_v2 c buf else err not_proxy_protocol

  unfoldable pub parse : List ℕ → Outcome (ProxyInfo × ℕ) ParseError
  parse [] = err incomplete
  parse (b ∷ bs) =
      if b == 0x0d
      then parse_binary (b ∷ bs)
      else if b == b'P'
      then parse_text (b ∷ bs)
      else err not_proxy_protocol
