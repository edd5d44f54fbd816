-- ===== src/Parse/Tlv.antt =====
-- parse/tlv.rs: the TLV extensions of a v2 header. Each `while` loop is a function on fuel, and its
-- body a function of its own.
pub mod Read
pub mod Ssl
pub mod View
pub mod Accept
pub mod Loop
pub mod Ranges
pub mod Errors
use proxy_protocol_rs.Prelude.{
  ℕ, zero, suc, ◌+◌, not, ◌==◌, ltb, if◌then◌else◌, some, List, [], ◌∷◌, ◌++◌, length, index, slice,
  slice_from, be16, be32, bit_and, Outcome, ok, panic, stuck, ◌>>=◌, ◌>>◌, fail_if,
}
use proxy_protocol_rs.Std.Utf8.{is_utf8, from_utf8_lossy}
use proxy_protocol_rs.Types.{SslInfo, ssl_default, Tlvs, tlvs_default}
use proxy_protocol_rs.Error.{ParseError, invalid, malformed_tlv}

unfoldable pub bytes_to_string : List ℕ → List ℕ
unfolding is_utf8 from_utf8_lossy
bytes_to_string bs = if is_utf8 bs then bs else from_utf8_lossy bs

abbrev pub malformed : ℕ → ParseError
malformed offset = invalid (malformed_tlv offset)

-- `match sub_type { ... }` of `parse_ssl`
unfoldable pub set_ssl_field : ℕ → List ℕ → SslInfo → SslInfo
unfolding bytes_to_string
set_ssl_field sub_type value s =
    if sub_type == 0x21
    then record s { version = some (bytes_to_string value) }
    else if sub_type == 0x22
    then record s { cn = some (bytes_to_string value) }
    else if sub_type == 0x23
    then record s { cipher = some (bytes_to_string value) }
    else if sub_type == 0x24
    then record s { sig_alg = some (bytes_to_string value) }
    else if sub_type == 0x25
    then record s { key_alg = some (bytes_to_string value) }
    else if sub_type == 0x26
    then record s { group = some (bytes_to_string value) }
    else if sub_type == 0x27
    then record s { sig_scheme = some (bytes_to_string value) }
    else if sub_type == 0x28
    then record s { client_cert = some value }
    else s

-- The front of each loop's body: the type, the value and what follows them, or the error that the
-- bytes do not hold them.
unfoldable pub read_tlv : List ℕ → ℕ → Outcome (ℕ × List ℕ × List ℕ) ParseError
read_tlv bytes offset = do
  fail_if (ltb (length bytes) 3) (malformed offset)
  tlv_type ← index bytes 0
  hi ← index bytes 1
  lo ← index bytes 2
  let tlv_len = be16 hi lo
  fail_if (ltb (length bytes) (3 + tlv_len)) (malformed offset)
  value ← slice bytes 3 (3 + tlv_len)
  rest ← slice_from bytes (3 + tlv_len)
  ok (tlv_type, value, rest)

-- The loop of `parse_ssl`. A round takes three bytes at least, so `length sub_data` rounds are enough.
unfoldable pub parse_ssl_loop : ℕ → SslInfo → List ℕ → ℕ → Outcome SslInfo ParseError
parse_ssl_loop fuel s [] sub_offset = ok s
parse_ssl_loop zero s (b ∷ bs) sub_offset = stuck
parse_ssl_loop (suc fuel) s (b ∷ bs) sub_offset = do
  (sub_type, sub_value, rest) ← read_tlv (b ∷ bs) sub_offset
  parse_ssl_loop fuel (set_ssl_field sub_type sub_value s) rest
      (sub_offset + (3 + length sub_value))

-- `SslClientFlags::from_bits_truncate` keeps the three bits that have names.
abbrev pub from_bits_truncate : ℕ → ℕ
from_bits_truncate b = bit_and b 0x07

unfoldable pub parse_ssl : List ℕ → ℕ → Outcome SslInfo ParseError
unfolding parse_ssl_loop read_tlv set_ssl_field
parse_ssl bytes outer_offset = do
  client_byte ← index bytes 0
  v1 ← index bytes 1
  v2 ← index bytes 2
  v3 ← index bytes 3
  v4 ← index bytes 4
  let verify = be32 v1 v2 v3 v4
  let s = record ssl_default {
    client_flags = from_bits_truncate client_byte;
    verified = verify == 0;
  }
  sub_data ← slice_from bytes 5
  parse_ssl_loop (length sub_data) s sub_data (outer_offset + 5)

-- `u32::from_be_bytes(<[u8; 4]>::try_from(value).unwrap())`
abbrev pub be32_of : List ℕ → Outcome ℕ ParseError
be32_of (a ∷ b ∷ c ∷ d ∷ []) = ok (be32 a b c d)
be32_of _ = panic

-- PP2_TYPE_CRC32C, which must be exactly 4 bytes.
unfoldable pub set_crc32c : List ℕ → ℕ → Tlvs → Outcome Tlvs ParseError
set_crc32c value offset t = do
  fail_if (not (length value == 4)) (malformed offset)
  crc ← be32_of value
  ok (record t { crc32c = some crc })

-- PP2_TYPE_UNIQUE_ID
unfoldable pub set_unique_id : List ℕ → ℕ → Tlvs → Outcome Tlvs ParseError
set_unique_id value offset t = do
  fail_if (ltb 128 (length value)) (malformed offset)
  ok (record t { unique_id = some value })

-- PP2_TYPE_SSL
unfoldable pub set_ssl : List ℕ → ℕ → Tlvs → Outcome Tlvs ParseError
unfolding parse_ssl
set_ssl value offset t = do
  fail_if (ltb (length value) 5) (malformed offset)
  s ← parse_ssl value (offset + 3)
  ok (record t { ssl = some s })

-- `match tlv_type { ... }` of `parse_tlvs`
unfoldable pub set_tlv_field : ℕ → List ℕ → ℕ → Tlvs → Outcome Tlvs ParseError
set_tlv_field tlv_type value offset t =
    if tlv_type == 0x01
    then ok (record t { alpn = some value })
    else if tlv_type == 0x02
    then ok (record t { authority = some (bytes_to_string value) })
    else if tlv_type == 0x03
    then set_crc32c value offset t
    else if tlv_type == 0x04
    then ok t
    else if tlv_type == 0x05
    then set_unique_id value offset t
    else if tlv_type == 0x20
    then set_ssl value offset t
    else if tlv_type == 0x30
    then ok (record t { netns = some (bytes_to_string value) })
    else ok t

-- `tlvs.raw.push((tlv_type, value.to_vec()))`
abbrev pub push_raw : ℕ → List ℕ → Tlvs → Tlvs
push_raw tlv_type value t = record t { raw = t.raw ++ ((tlv_type, value) ∷ []) }

-- The loop of `parse_tlvs`, with `length bytes` rounds enough as above.
unfoldable pub parse_tlvs_loop : ℕ → Tlvs → List ℕ → ℕ → Outcome Tlvs ParseError
parse_tlvs_loop fuel t [] offset = ok t
parse_tlvs_loop zero t (b ∷ bs) offset = stuck
parse_tlvs_loop (suc fuel) t (b ∷ bs) offset = do
  (tlv_type, value, rest) ← read_tlv (b ∷ bs) offset
  t' ← set_tlv_field tlv_type value offset (push_raw tlv_type value t)
  parse_tlvs_loop fuel t' rest (offset + (3 + length value))

unfoldable pub parse_tlvs : List ℕ → Outcome Tlvs ParseError
unfolding parse_tlvs_loop read_tlv set_tlv_field set_crc32c set_unique_id set_ssl bytes_to_string
parse_tlvs bytes = parse_tlvs_loop (length bytes) tlvs_default bytes 0
