-- ===== src/Parse/V2.antt =====
-- parse/v2.rs: the binary header.
pub mod Crc
pub mod Inside
pub mod Total
pub mod Parsed
pub mod Integrity
pub mod Zeroed
pub mod Ranges
pub mod Reads
pub mod PayloadErrors
pub mod CrcErrors
pub mod Errors
use proxy_protocol_rs.Prelude.{
  ℕ, zero, suc, ◌+◌, ◌/◌, not, ◌==◌, ltb, leb, ◌&&◌, ◌||◌, if◌then◌else◌, Option, none, some, List,
  [], ◌∷◌, length, index, slice, slice_from, be16, bit_and, Outcome, ok, err, panic, stuck, ◌>>=◌,
  ◌>>◌, fail_if, unwrap_or_default,
}
use proxy_protocol_rs.Std.Net.{Ipv6Addr, v4, v6, socket_addr}
use proxy_protocol_rs.Types.{
  ProxyAddress, inet, unix, Version, Command, local, proxy, AddressFamily, inet4, inet6,
  unix_family, TransportProtocol, stream, datagram, Transport, Tlvs, tlvs_default, ProxyInfo,
}
use proxy_protocol_rs.Error.{
  ParseError, incomplete, invalid, crc_mismatch, unsupported_version, unknown_command,
  unknown_family, unknown_protocol, unspec_with_proxy, payload_overflow,
}
use proxy_protocol_rs.Crc.{Crc32c}
use proxy_protocol_rs.Parse.Tlv.{parse_tlvs}

abbrev pub v2_header_len : ℕ
v2_header_len = 16

-- The bytes before the first 0, or all of them.
unfoldable pub extract_unix_path : List ℕ → List ℕ
extract_unix_path [] = []
extract_unix_path (b ∷ bs) = if b == 0 then [] else b ∷ extract_unix_path bs

-- `AddressParseResult`
pub record Addresses : Type 0 where
  pub transport : Option Transport
  pub source : Option ProxyAddress
  pub destination : Option ProxyAddress
  pub tlv_offset : ℕ

unfoldable pub command_of : ℕ → Outcome Command ParseError
command_of command_nibble =
    if command_nibble == 0x00
    then ok local
    else if command_nibble == 0x01
    then ok proxy
    else err (invalid (unknown_command command_nibble))

unfoldable pub family_of : ℕ → Outcome AddressFamily ParseError
family_of family_nibble =
    if family_nibble == 1
    then ok inet4
    else if family_nibble == 2
    then ok inet6
    else if family_nibble == 3
    then ok unix_family
    else err (invalid (unknown_family family_nibble))

unfoldable pub protocol_of : ℕ → Outcome TransportProtocol ParseError
protocol_of proto_nibble =
    if proto_nibble == 1
    then ok stream
    else if proto_nibble == 2
    then ok datagram
    else err (invalid (unknown_protocol proto_nibble))

-- The branch `AddressFamily::Inet` of `parse_v2_addresses`
unfoldable pub parse_inet : Transport → List ℕ → Outcome Addresses ParseError
parse_inet transport payload = do
  fail_if (ltb (length payload) 12) (invalid (payload_overflow 12 (length payload)))
  s0 ← index payload 0
  s1 ← index payload 1
  s2 ← index payload 2
  s3 ← index payload 3
  d0 ← index payload 4
  d1 ← index payload 5
  d2 ← index payload 6
  d3 ← index payload 7
  sp0 ← index payload 8
  sp1 ← index payload 9
  dp0 ← index payload 10
  dp1 ← index payload 11
  let src_ip = v4 (record { octets = s0 ∷ s1 ∷ s2 ∷ s3 ∷ [] })
  let dst_ip = v4 (record { octets = d0 ∷ d1 ∷ d2 ∷ d3 ∷ [] })
  ok (record {
    transport = some transport;
    source = some (inet (socket_addr src_ip (be16 sp0 sp1)));
    destination = some (inet (socket_addr dst_ip (be16 dp0 dp1)));
    tlv_offset = 12;
  })

-- `Ipv6Addr::from(<[u8; 16]>::try_from(bytes).unwrap())`
abbrev pub ipv6_of : List ℕ → Outcome Ipv6Addr ParseError
ipv6_of bytes = if length bytes == 16 then ok (record { octets = bytes }) else panic

-- The branch `AddressFamily::Inet6`
unfoldable pub parse_inet6 : Transport → List ℕ → Outcome Addresses ParseError
parse_inet6 transport payload = do
  fail_if (ltb (length payload) 36) (invalid (payload_overflow 36 (length payload)))
  src_bytes ← slice payload 0 16
  src_ip ← ipv6_of src_bytes
  dst_bytes ← slice payload 16 32
  dst_ip ← ipv6_of dst_bytes
  sp0 ← index payload 32
  sp1 ← index payload 33
  dp0 ← index payload 34
  dp1 ← index payload 35
  ok (record {
    transport = some transport;
    source = some (inet (socket_addr (v6 src_ip) (be16 sp0 sp1)));
    destination = some (inet (socket_addr (v6 dst_ip) (be16 dp0 dp1)));
    tlv_offset = 36;
  })

-- The branch `AddressFamily::Unix`
unfoldable pub parse_unix : Transport → List ℕ → Outcome Addresses ParseError
unfolding extract_unix_path
parse_unix transport payload = do
  fail_if (ltb (length payload) 216) (invalid (payload_overflow 216 (length payload)))
  src_field ← slice payload 0 108
  dst_field ← slice payload 108 216
  ok (record {
    transport = some transport;
    source = some (unix (extract_unix_path src_field));
    destination = some (unix (extract_unix_path dst_field));
    tlv_offset = 216;
  })

abbrev pub parse_family : AddressFamily → Transport → List ℕ → Outcome Addresses ParseError
parse_family inet4 = parse_inet
parse_family inet6 = parse_inet6
parse_family unix_family = parse_unix

unfoldable pub parse_v2_addresses : ℕ → ℕ → List ℕ → Outcome Addresses ParseError
parse_v2_addresses family_nibble proto_nibble payload = do
  family ← family_of family_nibble
  protocol ← protocol_of proto_nibble
  parse_family family (record { family = family; protocol = protocol }) payload

-- `match command { ... }` over the addresses
unfoldable pub addresses_of : Command → ℕ → ℕ → List ℕ → Outcome Addresses ParseError
addresses_of local family_nibble proto_nibble payload =
    ok (record { transport = none; source = none; destination = none; tlv_offset = 0 })
addresses_of proxy family_nibble proto_nibble payload = do
  fail_if (family_nibble == 0 || proto_nibble == 0) (invalid unspec_with_proxy)
  parse_v2_addresses family_nibble proto_nibble payload

-- A LOCAL header's payload may be malformed; then it counts as no TLV.
unfoldable pub tlvs_of_command : Command → List ℕ → Outcome Tlvs ParseError
tlvs_of_command local bytes = unwrap_or_default tlvs_default (parse_tlvs bytes)
tlvs_of_command proxy bytes = parse_tlvs bytes

unfoldable pub tlvs_of : Command → ℕ → List ℕ → Outcome Tlvs ParseError
tlvs_of command tlv_offset payload =
    let parsed = do bytes ← slice_from payload tlv_offset; tlvs_of_command command bytes
    in if ltb tlv_offset (length payload) then parsed else ok tlvs_default

module _ (c : Crc32c) where
  -- The checksum of the header with the four bytes from `crc_value_start` on read as zeroes.
  unfoldable pub crc_without : List ℕ → ℕ → Outcome ℕ ParseError
  crc_without header crc_value_start = do
    before ← slice header 0 crc_value_start
    let crc1 = c.crc32c before
    let crc2 = c.crc32c_append crc1 (0 ∷ 0 ∷ 0 ∷ 0 ∷ [])
    after ← slice_from header (crc_value_start + 4)
    ok (c.crc32c_append crc2 after)

  -- The loop that looks for the TLV, on fuel. A round moves `pos` by three at least, so
  -- `total_len + 1` rounds are enough.
  unfoldable pub find_crc_loop : ℕ → List ℕ → ℕ → ℕ → Outcome ℕ ParseError
  find_crc_loop zero header total_len pos = stuck
  find_crc_loop (suc fuel) header total_len pos =
      let round = do
        tlv_type ← index header pos
        hi ← index header (pos + 1)
        lo ← index header (pos + 2)
        let tlv_len = be16 hi lo
        let next = find_crc_loop fuel header total_len (pos + (3 + tlv_len))
        if ltb total_len (pos + 3 + tlv_len)
            then ok (c.crc32c header)
            else if tlv_type == 0x03 && tlv_len == 4
            then crc_without header (pos + 3)
            else next
      in if leb (pos + 3) total_len then round else ok (c.crc32c header)

  unfoldable pub compute_crc32c : List ℕ → ℕ → ℕ → Outcome ℕ ParseError
  compute_crc32c buf total_len tlv_start = do
    header ← slice buf 0 total_len
    find_crc_loop (total_len + 1) header total_len tlv_start

  -- `if let Some(expected_crc) = tlvs.crc32c { ... }`
  unfoldable pub check_crc : Option ℕ → List ℕ → ℕ → ℕ → Outcome (Unit {0}) ParseError
  check_crc none buf total_len tlv_start = ok tt
  check_crc (some expected_crc) buf total_len tlv_start = do
    actual_crc ← compute_crc32c buf total_len tlv_start
    fail_if (not (actual_crc == expected_crc)) (crc_mismatch expected_crc actual_crc)

  -- What follows the fixed header, once its fields are read.
  unfoldable pub parse_v2_payload :
      Command → ℕ → ℕ → ℕ → List ℕ → Outcome (ProxyInfo × ℕ) ParseError
  parse_v2_payload command fam_proto hi lo buf = do
    let family_nibble = fam_proto / 16
    let proto_nibble = bit_and fam_proto 0x0f
    let total_len = v2_header_len + be16 hi lo
    fail_if (ltb (length buf) total_len) incomplete
    payload ← slice buf v2_header_len total_len
    addresses ← addresses_of command family_nibble proto_nibble payload
    tlvs ← tlvs_of command addresses.tlv_offset payload
    check_crc tlvs.crc32c buf total_len (v2_header_len + addresses.tlv_offset)
    ok (
      record {
        version = Version.v2;
        command = command;
        transport = addresses.transport;
        source = addresses.source;
        destination = addresses.destination;
        tlvs = tlvs;
      },
      total_len,
    )

  unfoldable pub parse_v2 : List ℕ → Outcome (ProxyInfo × ℕ) ParseError
  parse_v2 buf = do
    fail_if (ltb (length buf) v2_header_len) incomplete
    ver_cmd ← index buf 12
    let version_nibble = ver_cmd / 16
    let command_nibble = bit_and ver_cmd 0x0f
    fail_if (not (version_nibble == 0x02)) (invalid (unsupported_version version_nibble))
    command ← command_of command_nibble
    fam_proto ← index buf 13
    hi ← index buf 14
    lo ← index buf 15
    parse_v2_payload command fam_proto hi lo buf
