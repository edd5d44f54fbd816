-- ===== src/Std/Net.antt =====
-- `std::net`: IP addresses and socket addresses, as `types.rs`, the parsers and the builder use them.
use proxy_protocol_rs.Prelude.{ℕ, ◌≡◌, ◌<◌, Bool, true, false, List, length, All, IsByte}

-- Four octets, in network order.
pub record Ipv4Addr : Type 0 where
  pub octets : List ℕ

-- Sixteen octets, in network order.
pub record Ipv6Addr : Type 0 where
  pub octets : List ℕ

pub data IpAddr : Type 0 where
  v4 : Ipv4Addr → IpAddr
  v6 : Ipv6Addr → IpAddr

pub record SocketAddrV4 : Type 0 where
  pub addr : Ipv4Addr
  pub port4 : ℕ

pub record SocketAddrV6 : Type 0 where
  pub addr6 : Ipv6Addr
  pub port6 : ℕ
  pub flowinfo : ℕ
  pub scope_id : ℕ

pub data SocketAddr : Type 0 where
  sock4 : SocketAddrV4 → SocketAddr
  sock6 : SocketAddrV6 → SocketAddr

-- `SocketAddr::new`: an IPv6 address gets no flow label and no scope.
abbrev pub socket_addr : IpAddr → ℕ → SocketAddr
socket_addr (v4 a) port = sock4 (record { addr = a; port4 = port })
socket_addr (v6 a) port = sock6 (record { addr6 = a; port6 = port; flowinfo = 0; scope_id = 0 })

-- `SocketAddr::ip`
abbrev pub ip_of : SocketAddr → IpAddr
ip_of (sock4 s) = v4 s.addr
ip_of (sock6 s) = v6 s.addr6

-- `SocketAddr::port`
abbrev pub port_of : SocketAddr → ℕ
port_of (sock4 s) = s.port4
port_of (sock6 s) = s.port6

-- `SocketAddr::is_ipv4`
abbrev pub is_ipv4 : SocketAddr → Bool
is_ipv4 (sock4 s) = true
is_ipv4 (sock6 s) = false

abbrev pub IsIpv4 : Ipv4Addr → Type 0
IsIpv4 a = (length a.octets ≡ 4) × All IsByte a.octets

abbrev pub IsIpv6 : Ipv6Addr → Type 0
IsIpv6 a = (length a.octets ≡ 16) × All IsByte a.octets

abbrev pub IsIp : IpAddr → Type 0
IsIp (v4 a) = IsIpv4 a
IsIp (v6 a) = IsIpv6 a

abbrev pub IsPort : ℕ → Type 0
IsPort p = p < 65536

abbrev pub IsSocket : SocketAddr → Type 0
IsSocket s = IsIp (ip_of s) × IsPort (port_of s)
