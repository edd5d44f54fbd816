-- ===== src/Stream.antt =====
-- The stream with the header's metadata of stream.rs.
use proxy_protocol_rs.Prelude.{
  ℕ, ◌+◌, ◌-◌, ◌<◌, min, leb, ltb, Bool, if◌then◌else◌, Option, none, some, and_then, unwrap_or,
  List, [], ◌++◌, length, slice, Outcome, ok, ◌>>=◌, ◌>>◌, assert,
}
use proxy_protocol_rs.Std.Net.{IpAddr, SocketAddr, ip_of}
use proxy_protocol_rs.Types.{ProxyInfo, source_inet}
use proxy_protocol_rs.Incoming.{
  ReadEvent, received, TcpStream, next_read_into, WriteEvent, TcpWrites,
}
pub mod Reading
pub mod Polling
pub mod Display

pub record ProxyConnectInfo : Type 0 where
  pub client_addr : SocketAddr
  pub peer_addr : SocketAddr
  pub proxy_info : Option ProxyInfo

-- `leftover: Cursor<Vec<u8>>` is the bytes and the position in them.
pub record ProxiedStream : Type 0 where
  pub inner : TcpStream
  pub leftover : List ℕ
  pub position : ℕ
  pub proxy_info : Option ProxyInfo
  pub peer_addr : SocketAddr

abbrev pub new_stream : TcpStream → List ℕ → Option ProxyInfo → SocketAddr → ProxiedStream
new_stream inner leftover info peer = record {
  inner = inner;
  leftover = leftover;
  position = 0;
  proxy_info = info;
  peer_addr = peer;
}

unfoldable pub client_addr_of : ProxiedStream → SocketAddr
unfolding source_inet
client_addr_of s = unwrap_or (and_then s.proxy_info source_inet) s.peer_addr

unfoldable pub connect_info : ProxiedStream → ProxyConnectInfo
unfolding client_addr_of
connect_info s = record {
  client_addr = client_addr_of s;
  peer_addr = s.peer_addr;
  proxy_info = s.proxy_info;
}

unfoldable pub client_ip : ProxyConnectInfo → IpAddr
client_ip c = ip_of c.client_addr

-- `is_some` on an option
abbrev pub is_present {ℓ} : {A : Type ℓ} → Option A → Bool
is_present none = Bool.false
is_present (some a) = Bool.true

unfoldable pub is_proxied : ProxyConnectInfo → Bool
is_proxied c = is_present c.proxy_info

-- `From<&ProxiedStream>`
unfoldable pub info_of_stream : ProxiedStream → ProxyConnectInfo
unfolding connect_info
info_of_stream s = connect_info s

-- `From<SocketAddr>`
unfoldable pub info_of_addr : SocketAddr → ProxyConnectInfo
info_of_addr addr = record { client_addr = addr; peer_addr = addr; proxy_info = none }

-- `From<(ProxyInfo, SocketAddr)>`
unfoldable pub info_of_pair : ProxyInfo → SocketAddr → ProxyConnectInfo
unfolding source_inet
info_of_pair info peer_addr = record {
  client_addr = unwrap_or (source_inet info) peer_addr;
  peer_addr = peer_addr;
  proxy_info = some info;
}

-- `poll_read` into a buffer with room for `remaining` bytes: what it puts there, and the stream
-- after it. `elapsed` is `Poll::Pending`. The subtraction panics where it would pass below 0.
unfoldable pub poll_read : ℕ → ProxiedStream → Outcome (ReadEvent × ProxiedStream) ⊥
poll_read remaining s = do
  assert (leb s.position (length s.leftover))
  let leftover_remaining = length s.leftover - s.position
  let to_copy = min leftover_remaining remaining
  if ltb 0 leftover_remaining
      then (do
        bytes ← slice s.leftover s.position (s.position + to_copy)
        ok (received bytes, record s { position = s.position + to_copy }))
      else (let read = next_read_into remaining s.inner in ok (read.0, record s { inner = read.1 }))

-- Writing goes to the connection.
module _ (w : TcpWrites) where
  unfoldable pub poll_write : List ℕ → ProxiedStream → WriteEvent × ProxiedStream
  poll_write buf s =
      let (event, inner') = w.inner_write buf s.inner in (event, record s { inner = inner' })

  unfoldable pub poll_flush : ProxiedStream → WriteEvent × ProxiedStream
  poll_flush s = let (event, inner') = w.inner_flush s.inner in (event, record s { inner = inner' })

  unfoldable pub poll_shutdown : ProxiedStream → WriteEvent × ProxiedStream
  poll_shutdown s =
      let (event, inner') = w.inner_shutdown s.inner in (event, record s { inner = inner' })
