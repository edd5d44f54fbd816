-- ===== src/Axum.antt =====
-- The accept loop that axum.rs gives to a server.
use proxy_protocol_rs.Prelude.{
  ℕ, ◌+◌, Bool, true, false, if◌then◌else◌, Option, none, some, List, [], ◌∷◌, Outcome, ok, err,
  panic, stuck, ◌>>=◌,
}
use proxy_protocol_rs.Std.Io.{
  ErrorKind, connection_reset, connection_aborted, connection_refused, other_kind, IoError,
}
use proxy_protocol_rs.Error.{
  AcceptError, io, rejected, header_timeout, empty_connection, version_mismatch, parse_failed,
  validation_failed,
}
use proxy_protocol_rs.Crc.{Crc32c}
use proxy_protocol_rs.Config.{ProxyProtocolConfig}
use proxy_protocol_rs.Stream.{ProxiedStream, ProxyConnectInfo, connect_info}
use proxy_protocol_rs.Listener.{Permit, Connection, accept}
use proxy_protocol_rs.Listener.Handshakes.{ProxyProtocolListener, local_addr}
pub mod Skipping
pub mod Logging

abbrev pub is_connection_kind : ErrorKind → Bool
is_connection_kind connection_reset = true
is_connection_kind connection_aborted = true
is_connection_kind connection_refused = true
is_connection_kind (other_kind n) = false

unfoldable pub is_connection_error : IoError → Bool
is_connection_error e = is_connection_kind e.kind

-- The seconds that `handle_accept_error` sleeps
unfoldable pub handle_accept_error : AcceptError → ℕ
unfolding is_connection_error
handle_accept_error (io e) = if is_connection_error e then 0 else 1
handle_accept_error (rejected addr) = 0
handle_accept_error (empty_connection addr) = 0
handle_accept_error (header_timeout addr) = 0
handle_accept_error (parse_failed e addr) = 0
handle_accept_error (validation_failed reason addr) = 0
handle_accept_error (version_mismatch addr) = 0

-- What the loop has given: a stream with its information and the connections not looked at, or
-- nothing so far; and the seconds it has slept.
pub data Served : Type 0 where
  served : ProxiedStream → ProxyConnectInfo → List (Permit × Connection) → ℕ → Served
  waiting : ℕ → Served
  panicked : Served

abbrev pub add_sleep : ℕ → Served → Served
add_sleep n (served s info rest m) = served s info rest (n + m)
add_sleep n (waiting m) = waiting (n + m)
add_sleep n panicked = panicked

-- One round; `again` is what the rest of the loop gives.
unfoldable pub serve_one :
    Outcome ProxiedStream AcceptError → List (Permit × Connection) → Served → Served
unfolding connect_info
serve_one (ok s) rest again = served s (connect_info s) rest 0
serve_one (err e) rest again = add_sleep (handle_accept_error e) again
serve_one panic rest again = panicked
serve_one stuck rest again = panicked

module _ (c : Crc32c) (config : ProxyProtocolConfig) (other : IoError) where
  -- The loop over the connections that come, each with its answer of the semaphore
  unfoldable pub serve : List (Permit × Connection) → Served
  serve [] = waiting 0
  serve ((permit, conn) ∷ rest) = serve_one (accept c config other permit conn) rest (serve rest)

-- `local_addr` of axum's `Listener`
unfoldable pub server_addr : ProxyProtocolListener → Outcome ProxyConnectInfo IoError
unfolding local_addr
server_addr l = do
  addr ← local_addr l
  ok (record { client_addr = addr; peer_addr = addr; proxy_info = none })
