-- ===== src/Listener.antt =====
-- The listener of listener.rs: accepting a connection, reading its header and checking it.
pub mod Total
pub mod Decision
pub mod Delivery
pub mod Trust
pub mod EndToEnd
pub mod Handshakes
use proxy_protocol_rs.Prelude.{
  ℕ, ◌+◌, ltb, Bool, true, false, not, if◌then◌else◌, Option, none, some, List, [], ◌∷◌, ◌++◌,
  length, slice_from, Outcome, ok, err, panic, stuck, ◌>>=◌, ◌>>◌, assert, leb,
}
use proxy_protocol_rs.Std.Io.{IoError}
use proxy_protocol_rs.Std.Net.{SocketAddr}
use proxy_protocol_rs.Types.{Version, ProxyInfo}
use proxy_protocol_rs.Error.{
  ParseError, not_proxy_protocol, incomplete, AcceptError, io, rejected, header_timeout,
  empty_connection, version_mismatch, parse_failed, validation_failed,
}
use proxy_protocol_rs.Crc.{Crc32c}
use proxy_protocol_rs.Parse.Header.{parse}
use proxy_protocol_rs.Policy.{PolicyDecision, require, use_header, ignore, reject}
use proxy_protocol_rs.Config.{
  HeaderValidator, VersionPreference, both, v1_only, v2_only, ProxyProtocolConfig,
}
use proxy_protocol_rs.Incoming.{TcpStream, closed, broken, late, chunk}
use proxy_protocol_rs.Stream.{ProxiedStream, new_stream}

-- What the wait for a handshake permit gives: the semaphore is tokio's. With `granted room` the permit
-- comes in time, and the clock can then count `room` nanoseconds more.
pub data Permit : Type 0 where
  granted : (room : ℕ) → Permit
  permit_late semaphore_closed : Permit

-- `io::Error::other("semaphore closed")`
module _ (other : IoError) where
  unfoldable pub acquire : Permit → SocketAddr → Outcome ℕ AcceptError
  acquire (granted room) peer = ok room
  acquire permit_late peer = err (header_timeout peer)
  acquire semaphore_closed peer = err (io other)

-- The match on the configured preference and the header's version
unfoldable pub check_version :
    VersionPreference → Version → SocketAddr → Outcome (Unit {0}) AcceptError
check_version v1_only Version.v2 peer = err (version_mismatch peer)
check_version v2_only Version.v1 peer = err (version_mismatch peer)
check_version both v peer = ok tt
check_version v1_only Version.v1 peer = ok tt
check_version v2_only Version.v2 peer = ok tt

-- `map_err(|e| AcceptError::ValidationFailed(e, peer_addr))?`
abbrev pub validated : Outcome (Unit {0}) (List ℕ) → SocketAddr → Outcome (Unit {0}) AcceptError
validated (ok u) peer = ok tt
validated (err e) peer = err (validation_failed e peer)
validated panic peer = panic
validated stuck peer = stuck

unfoldable pub run_validator :
    Option HeaderValidator → ProxyInfo → SocketAddr → Outcome (Unit {0}) AcceptError
run_validator none info peer = ok tt
run_validator (some v) info peer = validated (v info peer) peer

-- A read of no bytes: the end of the stream
unfoldable pub at_end : List ℕ → SocketAddr → AcceptError
at_end [] peer = empty_connection peer
at_end (b ∷ bs) peer = parse_failed incomplete peer

-- What is done with a header that parses
unfoldable pub take_header :
    ProxyProtocolConfig
    → SocketAddr
    → ProxyInfo
    → ℕ
    → List ℕ
    → TcpStream
    → Outcome ProxiedStream AcceptError
take_header config peer info consumed buf tcp = do
  check_version config.version info.version peer
  run_validator config.validator info peer
  leftover ← slice_from buf consumed
  ok (new_stream tcp leftover (some info) peer)

-- The arms of `match parse(&buf)`; `again` is what the next round of the loop gives.
unfoldable pub on_error :
    ProxyProtocolConfig
    → SocketAddr
    → Bool
    → ParseError
    → List ℕ
    → TcpStream
    → Outcome ProxiedStream AcceptError
    → Outcome ProxiedStream AcceptError
on_error config peer required incomplete buf tcp again =
    if ltb (length buf) config.max_header_size then again else err (parse_failed incomplete peer)
on_error config peer required not_proxy_protocol buf tcp again =
    if not required
    then ok (new_stream tcp buf none peer)
    else err (parse_failed not_proxy_protocol peer)
on_error config peer required e buf tcp again = err (parse_failed e peer)

unfoldable pub on_parse :
    ProxyProtocolConfig
    → SocketAddr
    → Bool
    → Outcome (ProxyInfo × ℕ) ParseError
    → List ℕ
    → TcpStream
    → Outcome ProxiedStream AcceptError
    → Outcome ProxiedStream AcceptError
on_parse config peer required (ok (info, consumed)) buf tcp again =
    take_header config peer info consumed buf tcp
on_parse config peer required (err e) buf tcp again = on_error config peer required e buf tcp again
on_parse config peer required panic buf tcp again = panic
on_parse config peer required stuck buf tcp again = stuck

module _ (c : Crc32c) (config : ProxyProtocolConfig) (peer : SocketAddr) where
  -- The loop over the reads of the connection
  unfoldable pub read_loop : Bool → List ℕ → TcpStream → Outcome ProxiedStream AcceptError
  read_loop required buf closed = err (at_end buf peer)
  read_loop required buf (broken e) = err (io e)
  read_loop required buf (late tcp) = err (header_timeout peer)
  read_loop required buf (chunk [] tcp) = err (at_end buf peer)
  read_loop required buf (chunk (b ∷ bs) tcp) =
      on_parse config peer required (parse c (buf ++ (b ∷ bs))) (buf ++ (b ∷ bs)) tcp
        (read_loop required (buf ++ (b ∷ bs)) tcp)

  -- `Instant::now() + header_timeout` panics where the clock cannot count that far.
  unfoldable pub read_and_validate :
      IoError → Permit → Bool → TcpStream → Outcome ProxiedStream AcceptError
  read_and_validate other permit required tcp = do
    room ← acquire other permit peer
    assert (leb config.header_timeout room)
    read_loop required [] tcp

  unfoldable pub on_decision :
      IoError → Permit → PolicyDecision → TcpStream → Outcome ProxiedStream AcceptError
  on_decision other permit reject tcp = err (rejected peer)
  on_decision other permit ignore tcp = ok (new_stream tcp [] none peer)
  on_decision other permit require tcp = read_and_validate other permit true tcp
  on_decision other permit use_header tcp = read_and_validate other permit false tcp

  unfoldable pub on_policy :
      IoError → Permit → Outcome PolicyDecision ⊥ → TcpStream → Outcome ProxiedStream AcceptError
  on_policy other permit (ok decision) tcp = on_decision other permit decision tcp
  on_policy other permit (err e) tcp = absurd e
  on_policy other permit panic tcp = panic
  on_policy other permit stuck tcp = stuck

-- What the TCP listener's own accept gives
pub data Connection : Type 0 where
  connected : TcpStream → SocketAddr → Connection
  accept_failed : IoError → Connection

unfoldable pub accept :
    Crc32c → ProxyProtocolConfig → IoError → Permit → Connection → Outcome ProxiedStream AcceptError
accept c config other permit (connected tcp peer) =
    on_policy c config peer other permit (config.policy peer) tcp
accept c config other permit (accept_failed e) = err (io e)
