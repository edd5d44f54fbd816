-- ===== src/Builder/Calls.antt =====
-- builder.rs: `HeaderBuilder`, its constructors and its `with_` methods. An assertion that fails is a
-- panic.
use proxy_protocol_rs.Prelude.{
  ℕ, Bool, true, false, leb, not, if◌then◌else◌, Option, none, some, List, [], ◌∷◌, ◌++◌, length,
  replicate, Outcome, ok, ◌>>=◌, ◌>>◌, assert, map_option,
}
use proxy_protocol_rs.Std.Net.{SocketAddr, is_ipv4}
use proxy_protocol_rs.Types.{
  ProxyAddress, inet, unix, Version, v1, v2, Command, local, proxy, AddressFamily, inet4, inet6,
  unix_family, TransportProtocol, stream, Transport, SslInfo,
}
use proxy_protocol_rs.Builder.Ssl.{encode_ssl_tlv_value}

pub record HeaderBuilder : Type 0 where
  pub version : Version
  pub command : Command
  pub transport : Option Transport
  pub source : Option ProxyAddress
  pub destination : Option ProxyAddress
  pub tlv_entries : List (ℕ × List ℕ)
  pub add_crc32c : Bool

-- `assert_eq!(a, b)` on Booleans
abbrev pub bool_eq : Bool → Bool → Bool
bool_eq true b = b
bool_eq false b = not b

abbrev pub inet_family : SocketAddr → AddressFamily
inet_family s = if is_ipv4 s then inet4 else inet6

abbrev pub proxy_header : Version → SocketAddr → SocketAddr → HeaderBuilder
proxy_header version source destination = record {
  version = version;
  command = proxy;
  transport = some (record { family = inet_family source; protocol = stream });
  source = some (inet source);
  destination = some (inet destination);
  tlv_entries = [];
  add_crc32c = false;
}

unfoldable pub v2_proxy : SocketAddr → SocketAddr → Outcome HeaderBuilder ⊥
v2_proxy source destination = do
  assert (bool_eq (is_ipv4 source) (is_ipv4 destination))
  ok (proxy_header v2 source destination)

unfoldable pub v2_local : HeaderBuilder
v2_local = record {
  version = v2;
  command = local;
  transport = none;
  source = none;
  destination = none;
  tlv_entries = [];
  add_crc32c = false;
}

unfoldable pub v1_proxy : SocketAddr → SocketAddr → Outcome HeaderBuilder ⊥
v1_proxy source destination = do
  assert (bool_eq (is_ipv4 source) (is_ipv4 destination))
  ok (proxy_header v1 source destination)

unfoldable pub v1_unknown : HeaderBuilder
v1_unknown = record {
  version = v1;
  command = proxy;
  transport = none;
  source = none;
  destination = none;
  tlv_entries = [];
  add_crc32c = false;
}

unfoldable pub v2_unix : List ℕ → List ℕ → TransportProtocol → HeaderBuilder
v2_unix source destination protocol = record {
  version = v2;
  command = proxy;
  transport = some (record { family = unix_family; protocol = protocol });
  source = some (unix source);
  destination = some (unix destination);
  tlv_entries = [];
  add_crc32c = false;
}

abbrev pub set_protocol : TransportProtocol → Transport → Transport
set_protocol protocol t = record t { protocol = protocol }

unfoldable pub with_transport_protocol : TransportProtocol → HeaderBuilder → HeaderBuilder
with_transport_protocol protocol h = record h {
  transport = map_option (set_protocol protocol) h.transport;
}

-- `self.tlv_entries.push((type_byte, value))`
abbrev pub push_tlv : ℕ → List ℕ → HeaderBuilder → HeaderBuilder
push_tlv type_byte value h = record h { tlv_entries = h.tlv_entries ++ ((type_byte, value) ∷ []) }

unfoldable pub with_authority : List ℕ → HeaderBuilder → HeaderBuilder
with_authority authority h = push_tlv 0x02 authority h

unfoldable pub with_unique_id : List ℕ → HeaderBuilder → Outcome HeaderBuilder ⊥
with_unique_id id h = do assert (leb (length id) 128); ok (push_tlv 0x05 id h)

unfoldable pub with_alpn : List ℕ → HeaderBuilder → HeaderBuilder
with_alpn alpn h = push_tlv 0x01 alpn h

unfoldable pub with_ssl : SslInfo → HeaderBuilder → Outcome HeaderBuilder ⊥
with_ssl ssl h = do value ← encode_ssl_tlv_value ssl; ok (push_tlv 0x20 value h)

unfoldable pub with_netns : List ℕ → HeaderBuilder → HeaderBuilder
with_netns netns h = push_tlv 0x30 netns h

unfoldable pub with_raw_tlv : ℕ → List ℕ → HeaderBuilder → HeaderBuilder
with_raw_tlv type_byte value h = push_tlv type_byte value h

unfoldable pub with_padding : ℕ → HeaderBuilder → HeaderBuilder
with_padding len h = push_tlv 0x04 (replicate len 0) h

unfoldable pub with_crc32c : HeaderBuilder → HeaderBuilder
with_crc32c h = record h { add_crc32c = true }
