-- ===== src/Tests/Building.antt =====
-- Concrete inputs on which the theorems of builder.rs and of the parsed header's form are used.
use proxy_protocol_rs.Prelude.{
  ◌⊎◌, ℕ, ◌≤◌, ◌<◌, ◌≡◌, refl, true, List, [], ◌∷◌, length, some, ok, panic, arith, ◌++◌, All,
  IsByte, err,
}
use proxy_protocol_rs.Std.Utf8.{is_utf8, is_utf8_loop, first_char}
use proxy_protocol_rs.Std.Net.{Ipv6Addr, v6, socket_addr}
use proxy_protocol_rs.Types.{Tlvs, SslInfo, ssl_default, v1, inet6}
use proxy_protocol_rs.Parse.Header.{parse, parse_text}
use proxy_protocol_rs.Parse.Header.Ranges.{parse-IsProxyInfo}
use proxy_protocol_rs.Std.IpText.{parse_ip}
use proxy_protocol_rs.Parse.V1.{
  find_crlf, no_line_end, parse_line, is_unknown, splitn, split_space, parse_parts, family_of_str,
  parse_fields, parse_v1,
}
use proxy_protocol_rs.Error.Reasons.{IsExplained}
use proxy_protocol_rs.Parse.Header.Errors.{parse-IsExplained}
use proxy_protocol_rs.Error.{invalid, invalid_ip}
use proxy_protocol_rs.Parse.V1.Fields.{fields_info}
use proxy_protocol_rs.Builder.Header.TextReachable.{TextBuilt}
use proxy_protocol_rs.Builder.Header.TextLine.{IsSocket}
use proxy_protocol_rs.Builder.Header.TextRoundTrip.{parse-build_v1}
use proxy_protocol_rs.Parse.Tlv.{parse_ssl}
use proxy_protocol_rs.Parse.Header.Consistent.{IsConsistent, parse-IsConsistent}
use proxy_protocol_rs.Builder.Encode.{encode_tlv}
use proxy_protocol_rs.Builder.Ssl.{encode_field, encode_ssl_tlv_value}
use proxy_protocol_rs.Builder.Ssl.RoundTrip.{parse_ssl-encode_ssl_tlv_value}
use proxy_protocol_rs.Types.Ranges.{IsSslInfo, IsProxyInfo}
use proxy_protocol_rs.Builder.Calls.{
  HeaderBuilder, proxy_header, v1_proxy, v2_local, with_authority, with_crc32c,
}
use proxy_protocol_rs.Builder.Header.{build}
use proxy_protocol_rs.Builder.Header.Reachable.{Built}
use proxy_protocol_rs.Builder.Header.ReadBack.{parse-Built}
use proxy_protocol_rs.Builder.Header.RoundTrip.{info_with}
use proxy_protocol_rs.Builder.Header.Shape.{crc_entries}
use proxy_protocol_rs.Parse.Tlv.View.{View}
use proxy_protocol_rs.Builder.Header.Size.{build-payload_size}
use proxy_protocol_rs.Parse.Header.Counted.{TextHeader, BinaryHeader, parse-counted}
use proxy_protocol_rs.Tests.{
  header-IsByte, sum_crc, builder, header, info, builder-Endpoints, parse_header,
}

abbrev tls : SslInfo
tls = record ssl_default {
  client_flags = 5;
  verified = true;
  version = some (0x54 ∷ 0x4c ∷ 0x53 ∷ []);
  client_cert = some (0xff ∷ 0x00 ∷ []);
}

abbrev tls_value : List ℕ
tls_value = 5 ∷ 0 ∷ 0 ∷ 0 ∷ 0 ∷ 0x21 ∷ 0 ∷ 3 ∷ 0x54 ∷ 0x4c ∷ 0x53 ∷ 0x28 ∷ 0 ∷ 2 ∷ 0xff ∷ 0 ∷ []

encode_tls : encode_ssl_tlv_value tls ≡ ok tls_value
unfolding encode_ssl_tlv_value encode_field encode_tlv
encode_tls = refl

tls-IsSslInfo : IsSslInfo tls
unfolding is_utf8 is_utf8_loop first_char
tls-IsSslInfo = record {
  flags = refl;
  version = refl;
  cipher = tt;
  sig_alg = tt;
  key_alg = tt;
  cn = tt;
  group = tt;
  sig_scheme = tt;
}

parse_ssl-encode_ssl_tlv_value_example : parse_ssl tls_value 31 ≡ ok tls
parse_ssl-encode_ssl_tlv_value_example =
    parse_ssl-encode_ssl_tlv_value tls tls_value 31 tls-IsSslInfo encode_tls

-- A LOCAL header with an authority and a checksum
abbrev named : HeaderBuilder
named = with_crc32c (with_authority (0x61 ∷ []) v2_local)

parse-Built_example :
    (bytes : List ℕ) × (sum : ℕ) × (t : Tlvs) × (build sum_crc named ≡ ok bytes)
    × (length bytes ≡ 27)
    × (parse sum_crc (bytes ++ (7 ∷ [])) ≡ ok (info_with named t, length bytes))
    × (t.raw ≡ named.tlv_entries ++ crc_entries named.add_crc32c sum)
    × View t
unfolding with_crc32c with_authority v2_local
parse-Built_example =
    parse-Built sum_crc named (7 ∷ [])
      (Built.crc32c (Built.authority (0x61 ∷ []) (omega arith) Built.local_header)) (omega arith)

build-payload_size_example :
    (28 ≤ 65535 → (bytes : List ℕ) × (build sum_crc builder ≡ ok bytes) × (length bytes ≡ 44))
    × (65535 < 28 → build sum_crc builder ≡ panic)
build-payload_size_example =
    build-payload_size sum_crc builder refl builder-Endpoints (omega arith, (omega arith, tt))

parse-IsConsistent_example : IsConsistent info
parse-IsConsistent_example = parse-IsConsistent sum_crc header info 44 parse_header

parse-counted_example : (44 ≤ 44) × (TextHeader header info 44 ⊎ BinaryHeader info 44)
parse-counted_example = parse-counted sum_crc header info 44 header-IsByte parse_header

-- 2001:db8::1, port 56324, to ::ffff:10.0.0.255, port 443
abbrev pub client : Ipv6Addr
client = record { octets = 32 ∷ 1 ∷ 13 ∷ 184 ∷ 0 ∷ 0 ∷ 0 ∷ 0 ∷ 0 ∷ 0 ∷ 0 ∷ 0 ∷ 0 ∷ 0 ∷ 0 ∷ 1 ∷ [] }

abbrev server : Ipv6Addr
server = record {
  octets = 0 ∷ 0 ∷ 0 ∷ 0 ∷ 0 ∷ 0 ∷ 0 ∷ 0 ∷ 0 ∷ 0 ∷ 255 ∷ 255 ∷ 10 ∷ 0 ∷ 0 ∷ 255 ∷ [];
}

abbrev text_builder : HeaderBuilder
text_builder = proxy_header v1 (socket_addr (v6 client) 56324) (socket_addr (v6 server) 443)

pub client-IsSocket : IsSocket (socket_addr (v6 client) 56324)
client-IsSocket = ((refl, omega arith), omega arith)

server-IsSocket : IsSocket (socket_addr (v6 server) 443)
server-IsSocket = ((refl, omega arith), omega arith)

v1_proxy-client :
    v1_proxy (socket_addr (v6 client) 56324) (socket_addr (v6 server) 443) ≡ ok text_builder
unfolding v1_proxy
v1_proxy-client = refl

parse-build_v1_example :
    (bytes : List ℕ) × (build sum_crc (with_authority (0x61 ∷ []) text_builder) ≡ ok bytes)
    × (length bytes ≤ 107)
    × (parse sum_crc (bytes ++ (0x47 ∷ []))
        ≡ ok (fields_info inet6 (v6 client) 56324 (v6 server) 443, length bytes))
unfolding with_authority
parse-build_v1_example =
    parse-build_v1 sum_crc (with_authority (0x61 ∷ []) text_builder) (0x47 ∷ []) (
      TextBuilt.authority (0x61 ∷ []) (
        TextBuilt.text_header (socket_addr (v6 client) 56324) (socket_addr (v6 server) 443)
          client-IsSocket server-IsSocket v1_proxy-client))

parse-IsProxyInfo_example : IsProxyInfo info
parse-IsProxyInfo_example = parse-IsProxyInfo sum_crc header info 44 header-IsByte parse_header

-- PROXY TCP4 1.2.3.4 ::1 1 2: the destination is not of the family.
abbrev mixed_line : List ℕ
mixed_line =
    0x50 ∷ 0x52 ∷ 0x4f ∷ 0x58 ∷ 0x59 ∷ 32 ∷ 0x54 ∷ 0x43 ∷ 0x50 ∷ 0x34 ∷ 32 ∷ 0x31 ∷ 0x2e ∷ 0x32
    ∷ 0x2e ∷ 0x33 ∷ 0x2e ∷ 0x34 ∷ 32 ∷ 0x3a ∷ 0x3a ∷ 0x31 ∷ 32 ∷ 0x31 ∷ 32 ∷ 0x32 ∷ 13 ∷ 10 ∷ []

mixed_line-IsByte : All IsByte mixed_line
mixed_line-IsByte = omega arith

parse-mixed_line : parse sum_crc mixed_line ≡ err (invalid (invalid_ip (0x3a ∷ 0x3a ∷ 0x31 ∷ [])))
unfolding parse parse_text parse_v1 find_crlf no_line_end parse_line is_unknown splitn split_space
    parse_parts family_of_str parse_fields parse_ip is_utf8 is_utf8_loop first_char
parse-mixed_line = refl

parse-IsExplained_example : IsExplained mixed_line (invalid (invalid_ip (0x3a ∷ 0x3a ∷ 0x31 ∷ [])))
parse-IsExplained_example =
    parse-IsExplained sum_crc mixed_line (invalid (invalid_ip (0x3a ∷ 0x3a ∷ 0x31 ∷ [])))
      mixed_line-IsByte parse-mixed_line
