-- ===== src/Builder/Header/Endpoints.antt =====
-- The addresses of a v2 header: `encode_addresses` of builder.rs against `parse_v2_addresses` of
-- parse/v2.rs.
use proxy_protocol_rs.Prelude.{
  ℕ, ◌/◌, ◌≡◌, refl, ◌∙◌, List, [], ◌++◌, length, length-append, to_be16, bit_or, bit_and, Option,
  none, some, Outcome, ok, arith,
}
use proxy_protocol_rs.Std.Net.{Ipv4Addr, Ipv6Addr, v4, v6, socket_addr, IsIpv4, IsIpv6, IsPort}
use proxy_protocol_rs.Types.{
  ProxyAddress, inet, unix, Command, local, proxy, AddressFamily, inet4, inet6, unix_family,
  TransportProtocol, stream, datagram, Transport,
}
use proxy_protocol_rs.Error.{ParseError}
use proxy_protocol_rs.Parse.V2.{
  Addresses, command_of, family_of, protocol_of, parse_family, parse_v2_addresses, addresses_of,
}
use proxy_protocol_rs.Builder.Header.{cmd_nibble, fam_proto, encode_addresses, command_addresses}
use proxy_protocol_rs.Builder.Header.Fields.{
  IsUnixPath, padded, inet_bytes-read, inet6_bytes-read, unix_bytes-read, unix_field-padded,
  length-padded, length-inet_bytes,
}

-- The command, transport, source and destination of a v2 header: none, or two addresses of the
-- transport's family.
pub data Endpoints
    : Command → Option Transport → Option ProxyAddress → Option ProxyAddress → Type 0 where
  no_address : Endpoints local none none none
  ipv4 :
      (p : TransportProtocol) (s d : Ipv4Addr) (sp dp : ℕ)
      → IsIpv4 s
      → IsIpv4 d
      → IsPort sp
      → IsPort dp
      → Endpoints proxy
          (some (record { family = inet4; protocol = p }))
          (some (inet (socket_addr (v4 s) sp)))
          (some (inet (socket_addr (v4 d) dp)))
  ipv6 :
      (p : TransportProtocol) (s d : Ipv6Addr) (sp dp : ℕ)
      → IsIpv6 s
      → IsIpv6 d
      → IsPort sp
      → IsPort dp
      → Endpoints proxy
          (some (record { family = inet6; protocol = p }))
          (some (inet (socket_addr (v6 s) sp)))
          (some (inet (socket_addr (v6 d) dp)))
  paths :
      (p : TransportProtocol) (s d : List ℕ)
      → IsUnixPath s
      → IsUnixPath d
      → Endpoints proxy
          (some (record { family = unix_family; protocol = p }))
          (some (unix s))
          (some (unix d))

-- The addresses are written as some bytes, and read back from them whatever follows.
pub record ReadsBack (cmd : Command) (tr : Option Transport) (src dst : Option ProxyAddress)
    : Type 0 where
  pub bytes : List ℕ
  pub encoded : command_addresses cmd src dst ≡ ok bytes
  pub version_two : bit_or 0x20 (cmd_nibble cmd) / 16 ≡ 2
  pub commanded : command_of (bit_and (bit_or 0x20 (cmd_nibble cmd)) 0x0f) ≡ ok cmd
  pub read :
      (rest : List ℕ)
      → addresses_of cmd (fam_proto tr / 16) (bit_and (fam_proto tr) 0x0f) (bytes ++ rest)
        ≡ ok (record { transport = tr; source = src; destination = dst; tlv_offset = length bytes })

offset_eq :
    {tr : Option Transport} {src dst : Option ProxyAddress} {m n : ℕ}
    → m ≡ n
    → ◌≡◌ {A = Outcome Addresses ParseError}
        (ok (record { transport = tr; source = src; destination = dst; tlv_offset = m }))
        (ok (record { transport = tr; source = src; destination = dst; tlv_offset = n }))
offset_eq e = rw e

-- The byte for the family and the protocol is read back.
nibbles :
    (f : AddressFamily) (p : TransportProtocol) (payload : List ℕ)
    → let t : Transport = record { family = f; protocol = p } in
      addresses_of proxy (fam_proto (some t) / 16) (bit_and (fam_proto (some t)) 0x0f) payload
      ≡ parse_family f t payload
unfolding addresses_of parse_v2_addresses family_of protocol_of
nibbles inet4 stream payload = refl
nibbles inet4 datagram payload = refl
nibbles inet6 stream payload = refl
nibbles inet6 datagram payload = refl
nibbles unix_family stream payload = refl
nibbles unix_family datagram payload = refl

pub Endpoints-ReadsBack :
    {cmd : Command} {tr : Option Transport} {src dst : Option ProxyAddress}
    → Endpoints cmd tr src dst
    → ReadsBack cmd tr src dst
unfolding addresses_of command_of encode_addresses
Endpoints-ReadsBack no_address = record {
  bytes = [];
  encoded = refl;
  version_two = refl;
  commanded = refl;
  read = λ rest. refl;
}
Endpoints-ReadsBack (ipv4 p s d sp dp hs hd hsp hdp) = record {
  bytes = s.octets ++ (d.octets ++ (to_be16 sp ++ to_be16 dp));
  encoded = refl;
  version_two = refl;
  commanded = refl;
  read = λ rest.
      nibbles inet4 p _
      ∙ (inet_bytes-read _ s.octets d.octets sp dp rest hs.0 hd.0 hsp hdp
          ∙ offset_eq (omega (arith, length-inet_bytes s.octets d.octets sp dp, hs.0, hd.0)));
}
Endpoints-ReadsBack (ipv6 p s d sp dp hs hd hsp hdp) = record {
  bytes = s.octets ++ (d.octets ++ (to_be16 sp ++ to_be16 dp));
  encoded = refl;
  version_two = refl;
  commanded = refl;
  read = λ rest.
      nibbles inet6 p _
      ∙ (inet6_bytes-read _ s.octets d.octets sp dp rest hs.0 hd.0 hsp hdp
          ∙ offset_eq (omega (arith, length-inet_bytes s.octets d.octets sp dp, hs.0, hd.0)));
}
Endpoints-ReadsBack (paths p s d hs hd) = record {
  bytes = padded s ++ padded d;
  encoded = rw (unix_field-padded s hs.0, unix_field-padded d hd.0);
  version_two = refl;
  commanded = refl;
  read = λ rest.
      nibbles unix_family p _
      ∙ (unix_bytes-read _ s d rest hs hd
          ∙ offset_eq (
              omega (
                arith,
                length-append (padded s) (padded d),
                length-padded s hs.0,
                length-padded d hd.0,
              )));
}
