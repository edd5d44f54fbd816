-- ===== src/Types.antt =====
-- The data of types.rs: the parsed header, its addresses and its TLV extensions. Bytes are numbers,
-- a `Vec<u8>` is a list of them, and a `String` is the list of its UTF-8 bytes.
pub mod Ranges
pub mod Display
use proxy_protocol_rs.Prelude.{ℕ, Bool, false, List, [], Option, none, some, and_then, map_option}
use proxy_protocol_rs.Std.Net.{SocketAddr, IpAddr, ip_of}

-- `ProxyAddress`
pub data ProxyAddress : Type 0 where
  inet : SocketAddr → ProxyAddress
  unix : List ℕ → ProxyAddress

-- `Version`
pub data Version : Type 0 where
  v1 v2 : Version

-- `Command`
pub data Command : Type 0 where
  local proxy : Command

pub data AddressFamily : Type 0 where
  inet4 inet6 unix_family : AddressFamily

pub data TransportProtocol : Type 0 where
  stream datagram : TransportProtocol

pub record Transport : Type 0 where
  pub family : AddressFamily
  pub protocol : TransportProtocol

-- `SslInfo`; `client_flags` is the byte that `SslClientFlags` wraps.
pub record SslInfo : Type 0 where
  pub client_flags : ℕ
  pub verified : Bool
  pub version : Option (List ℕ)
  pub cipher : Option (List ℕ)
  pub sig_alg : Option (List ℕ)
  pub key_alg : Option (List ℕ)
  pub cn : Option (List ℕ)
  pub group : Option (List ℕ)
  pub sig_scheme : Option (List ℕ)
  pub client_cert : Option (List ℕ)

abbrev pub ssl_default : SslInfo
ssl_default = record {
  client_flags = 0;
  verified = false;
  version = none;
  cipher = none;
  sig_alg = none;
  key_alg = none;
  cn = none;
  group = none;
  sig_scheme = none;
  client_cert = none;
}

pub record Tlvs : Type 0 where
  pub alpn : Option (List ℕ)
  pub authority : Option (List ℕ)
  pub crc32c : Option ℕ
  pub unique_id : Option (List ℕ)
  pub netns : Option (List ℕ)
  pub ssl : Option SslInfo
  pub raw : List (ℕ × List ℕ)

abbrev pub tlvs_default : Tlvs
tlvs_default = record {
  alpn = none;
  authority = none;
  crc32c = none;
  unique_id = none;
  netns = none;
  ssl = none;
  raw = [];
}

pub record ProxyInfo : Type 0 where
  pub version : Version
  pub command : Command
  pub transport : Option Transport
  pub source : Option ProxyAddress
  pub destination : Option ProxyAddress
  pub tlvs : Tlvs

unfoldable pub as_inet : ProxyAddress → Option SocketAddr
as_inet (inet addr) = some addr
as_inet (unix path) = none

unfoldable pub as_unix : ProxyAddress → Option (List ℕ)
as_unix (inet addr) = none
as_unix (unix path) = some path

unfoldable pub ip : ProxyAddress → Option IpAddr
unfolding as_inet
ip a = map_option ip_of (as_inet a)

unfoldable pub source_inet : ProxyInfo → Option SocketAddr
unfolding as_inet
source_inet info = and_then info.source as_inet

unfoldable pub destination_inet : ProxyInfo → Option SocketAddr
unfolding as_inet
destination_inet info = and_then info.destination as_inet

unfoldable pub source_ip : ProxyInfo → Option IpAddr
unfolding ip
source_ip info = and_then info.source ip

unfoldable pub destination_ip : ProxyInfo → Option IpAddr
unfolding ip
destination_ip info = and_then info.destination ip
