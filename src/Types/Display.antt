-- ===== src/Types/Display.antt =====
-- The `Display` implementations and the conversions of types.rs.
use proxy_protocol_rs.Prelude.{if◌then◌else◌, ℕ, List, ◌++◌, length}
use proxy_protocol_rs.Std.Net.{SocketAddr, SocketAddrV4, SocketAddrV6, sock4, sock6}
use proxy_protocol_rs.Std.Utf8.{is_utf8}
use proxy_protocol_rs.Std.IpDisplay.{show_dec}
use proxy_protocol_rs.Std.Text.{text, show_socket}
use proxy_protocol_rs.Types.{
  ProxyAddress, inet, unix, Version, v1, v2, Command, local, proxy, AddressFamily, inet4, inet6,
  unix_family, TransportProtocol, stream, datagram,
}

-- A path that is no text shows its length only.
unfoldable pub show_address : ProxyAddress → List ℕ
unfolding show_socket is_utf8 show_dec
show_address (inet addr) = show_socket addr
show_address (unix path) =
    if is_utf8 path then path else text "<unix:" ++ (show_dec (length path) ++ text " bytes>")

-- `From<SocketAddr>`, `From<SocketAddrV4>` and `From<SocketAddrV6>`
unfoldable pub address_of : SocketAddr → ProxyAddress
address_of addr = inet addr

unfoldable pub address_of_v4 : SocketAddrV4 → ProxyAddress
address_of_v4 addr = inet (sock4 addr)

unfoldable pub address_of_v6 : SocketAddrV6 → ProxyAddress
address_of_v6 addr = inet (sock6 addr)

unfoldable pub show_version : Version → List ℕ
show_version v1 = text "v1"
show_version v2 = text "v2"

unfoldable pub show_command : Command → List ℕ
show_command local = text "LOCAL"
show_command proxy = text "PROXY"

unfoldable pub show_family : AddressFamily → List ℕ
show_family inet4 = text "IPv4"
show_family inet6 = text "IPv6"
show_family unix_family = text "Unix"

unfoldable pub show_protocol : TransportProtocol → List ℕ
show_protocol stream = text "stream"
show_protocol datagram = text "datagram"
