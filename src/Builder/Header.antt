-- ===== src/Builder/Header.antt =====
-- builder.rs: `build`. An assertion that fails is a panic.
pub mod Shape
pub mod Fields
pub mod Endpoints
pub mod Plain
pub mod RoundTrip
pub mod Reachable
pub mod Size
pub mod ReadBack
pub mod TextLine
pub mod TextReachable
pub mod TextRoundTrip
use proxy_protocol_rs.Prelude.{
  ℕ, ◌-◌, ◌*◌, ◌%◌, Bool, true, false, leb, not, if◌then◌else◌, Option, none, some, List, [], ◌∷◌,
  ◌++◌, length, take, replicate, bit_or, min, to_be16, to_be32, Outcome, ok, panic, ◌>>=◌, ◌>>◌,
  assert, map_option,
}
use proxy_protocol_rs.Std.Net.{SocketAddr, IpAddr, v4, v6, ip_of, port_of, is_ipv4}
use proxy_protocol_rs.Std.IpDisplay.{show_ip, show_dec}
use proxy_protocol_rs.Types.{
  ProxyAddress, inet, unix, Version, v1, v2, Command, local, proxy, AddressFamily, inet4, inet6,
  unix_family, TransportProtocol, stream, datagram, Transport, SslInfo,
}
use proxy_protocol_rs.Crc.{Crc32c}
use proxy_protocol_rs.Parse.V1.{tcp4, tcp6, proxy_unknown}
use proxy_protocol_rs.Parse.Header.{v2_signature, v1_prefix}
use proxy_protocol_rs.Builder.Encode.{u16_max, copy_at, encode_tlvs}
use proxy_protocol_rs.Builder.Ssl.{encode_ssl_tlv_value}
use proxy_protocol_rs.Builder.Calls.{HeaderBuilder}

-- `let mut field = [0u8; 108]; field[..n].copy_from_slice(&path[..n])`
unfoldable pub unix_field : List ℕ → Outcome (List ℕ) ⊥
unix_field path = copy_at (replicate 108 0) 0 (take (min (length path) 108) path)

abbrev inet_bytes : List ℕ → List ℕ → SocketAddr → SocketAddr → List ℕ
inet_bytes s d src dst = s ++ (d ++ (to_be16 (port_of src) ++ to_be16 (port_of dst)))

-- `match (src.ip(), dst.ip())`
abbrev encode_inet : IpAddr → IpAddr → SocketAddr → SocketAddr → List ℕ
encode_inet (v4 s) (v4 d) src dst = inet_bytes s.octets d.octets src dst
encode_inet (v6 s) (v6 d) src dst = inet_bytes s.octets d.octets src dst
encode_inet _ _ src dst = []

abbrev encode_pair : ProxyAddress → ProxyAddress → Outcome (List ℕ) ⊥
encode_pair (inet src) (inet dst) = ok (encode_inet (ip_of src) (ip_of dst) src dst)
encode_pair (unix src) (unix dst) = do
  src_field ← unix_field src
  dst_field ← unix_field dst
  ok (src_field ++ dst_field)
encode_pair _ _ = ok []

-- What `encode_addresses` appends to the buffer
unfoldable pub encode_addresses : Option ProxyAddress → Option ProxyAddress → Outcome (List ℕ) ⊥
unfolding unix_field
encode_addresses (some source) (some destination) = encode_pair source destination
encode_addresses _ _ = ok []

abbrev cmd_nibble : Command → ℕ
cmd_nibble local = 0x00
cmd_nibble proxy = 0x01

abbrev family_code : AddressFamily → ℕ
family_code inet4 = 1
family_code inet6 = 2
family_code unix_family = 3

abbrev protocol_code : TransportProtocol → ℕ
protocol_code stream = 1
protocol_code datagram = 2

abbrev fam_proto : Option Transport → ℕ
fam_proto none = bit_or (0 * 16) 0
fam_proto (some t) = bit_or (family_code t.family * 16) (protocol_code t.protocol)

abbrev command_addresses : Command → Option ProxyAddress → Option ProxyAddress → Outcome (List ℕ) ⊥
command_addresses local source destination = ok []
command_addresses proxy source destination = encode_addresses source destination

-- The placeholder of the CRC TLV, last of all
abbrev crc_placeholder : Bool → List ℕ
crc_placeholder true = 0x03 ∷ to_be16 4 ++ (0 ∷ 0 ∷ 0 ∷ 0 ∷ [])
crc_placeholder false = []

-- The buffer before the length and the checksum are filled in
unfoldable pub unfilled : HeaderBuilder → Outcome (List ℕ) ⊥
unfilled h = do
  let fixed =
      v2_signature ++ (bit_or 0x20 (cmd_nibble h.command) ∷ fam_proto h.transport ∷ 0 ∷ 0 ∷ [])
  addresses ← command_addresses h.command h.source h.destination
  buf ← encode_tlvs (fixed ++ addresses) h.tlv_entries
  ok (buf ++ crc_placeholder h.add_crc32c)

module _ (c : Crc32c) where
  unfoldable pub fill_crc : Bool → List ℕ → Outcome (List ℕ) ⊥
  fill_crc true buf = copy_at buf (length buf - 4) (to_be32 (c.crc32c buf))
  fill_crc false buf = ok buf

  unfoldable pub build_v2 : HeaderBuilder → Outcome (List ℕ) ⊥
  build_v2 h = do
    buf ← unfilled h
    let payload_len = length buf - 16
    assert (leb payload_len u16_max)
    buf' ← copy_at buf 14 (to_be16 (payload_len % 65536))
    fill_crc h.add_crc32c buf'

-- `unreachable!()` is a panic.
abbrev family_word : AddressFamily → Outcome (List ℕ) ⊥
family_word inet4 = ok tcp4
family_word inet6 = ok tcp6
family_word unix_family = panic

abbrev pub crlf : List ℕ
crlf = 0x0d ∷ 0x0a ∷ []

abbrev field : List ℕ → List ℕ
field t = b' ' ∷ t

abbrev pub text_line : List ℕ → SocketAddr → SocketAddr → List ℕ
text_line word src dst =
    v1_prefix
    ++ (word
        ++ (field (show_ip (ip_of src))
            ++ (field (show_ip (ip_of dst))
                ++ (field (show_dec (port_of src)) ++ (field (show_dec (port_of dst)) ++ crlf)))))

unfoldable pub build_v1 :
    Option ProxyAddress → Option ProxyAddress → Option Transport → Outcome (List ℕ) ⊥
build_v1 (some (inet src)) (some (inet dst)) (some transport) = do
  word ← family_word transport.family
  ok (text_line word src dst)
build_v1 _ _ _ = ok (proxy_unknown ++ crlf)

module _ (c : Crc32c) where
  abbrev build_version : Version → HeaderBuilder → Outcome (List ℕ) ⊥
  build_version v1 h = build_v1 h.source h.destination h.transport
  build_version v2 h = build_v2 c h

  unfoldable pub build : HeaderBuilder → Outcome (List ℕ) ⊥
  build h = build_version h.version h
