-- ===== src/Stream/Display.antt =====
-- The `Display` implementation of `ProxyConnectInfo` of stream.rs.
use proxy_protocol_rs.Prelude.{ℕ, List, ◌++◌, if◌then◌else◌}
use proxy_protocol_rs.Std.Text.{text, show_socket}
use proxy_protocol_rs.Stream.{ProxyConnectInfo, is_proxied}

unfoldable pub show_connect_info : ProxyConnectInfo → List ℕ
unfolding show_socket is_proxied
show_connect_info c =
    if is_proxied c
    then show_socket c.client_addr ++ (text " via " ++ show_socket c.peer_addr)
    else show_socket c.client_addr ++ text " (direct)"
