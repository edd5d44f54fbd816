-- ===== src/Listener/Total.antt =====
-- Whether `accept` of listener.rs comes back.
use proxy_protocol_rs.Prelude.{
  ℕ, ◌≤◌, le→leb, inl, inr, Bool, true, false, Option, none, some, List, [], ◌∷◌, ◌++◌, length,
  slice_from_lem, Outcome, ok, err, panic, stuck, Returns, Returns-cases, Returns->>, arith,
}
use proxy_protocol_rs.Std.Io.{IoError}
use proxy_protocol_rs.Std.Net.{SocketAddr}
use proxy_protocol_rs.Types.{Version, ProxyInfo}
use proxy_protocol_rs.Error.{
  ParseError, incomplete, not_proxy_protocol, invalid, crc_mismatch, AcceptError,
}
use proxy_protocol_rs.Crc.{Crc32c}
use proxy_protocol_rs.Parse.Header.{parse}
use proxy_protocol_rs.Parse.Header.Total.{parse-Returns}
use proxy_protocol_rs.Parse.Header.Consumed.{parse-fits}
use proxy_protocol_rs.Policy.{PolicyDecision, require, use_header, ignore, reject}
use proxy_protocol_rs.Config.{
  HeaderValidator, VersionPreference, both, v1_only, v2_only, ProxyProtocolConfig,
}
use proxy_protocol_rs.Incoming.{TcpStream, closed, broken, late, chunk}
use proxy_protocol_rs.Stream.{ProxiedStream}
use proxy_protocol_rs.Listener.{
  Permit, granted, permit_late, semaphore_closed, acquire, check_version, validated, run_validator,
  take_header, on_error, on_parse, read_loop, read_and_validate, on_decision, on_policy, Connection,
  connected, accept_failed, accept,
}

-- The validator, where there is one, comes back on every header.
abbrev pub ComesBack : Option HeaderValidator → Type 0
ComesBack none = Unit {0}
ComesBack (some v) = (info : ProxyInfo) (peer : SocketAddr) → Returns (v info peer)

check_version-Returns :
    (p : VersionPreference) (v : Version) (peer : SocketAddr) → Returns (check_version p v peer)
unfolding check_version
check_version-Returns both v peer = tt
check_version-Returns v1_only Version.v1 peer = tt
check_version-Returns v1_only Version.v2 peer = tt
check_version-Returns v2_only Version.v1 peer = tt
check_version-Returns v2_only Version.v2 peer = tt

validated-Returns :
    (r : Outcome (Unit {0}) (List ℕ)) (peer : SocketAddr) → Returns r → Returns (validated r peer)
validated-Returns (ok u) peer h = tt
validated-Returns (err e) peer h = tt
validated-Returns panic peer h = h
validated-Returns stuck peer h = h

run_validator-Returns :
    (o : Option HeaderValidator) (info : ProxyInfo) (peer : SocketAddr)
    → ComesBack o
    → Returns (run_validator o info peer)
unfolding run_validator
run_validator-Returns none info peer h = tt
run_validator-Returns (some v) info peer h = validated-Returns (v info peer) peer (h info peer)

-- Where a permit comes, the clock can count the header's timeout from then on.
abbrev pub CanCount : ProxyProtocolConfig → Permit → Type 0
CanCount config (granted room) = config.header_timeout ≤ room
CanCount config permit_late = Unit {0}
CanCount config semaphore_closed = Unit {0}

module _ (config : ProxyProtocolConfig) (peer : SocketAddr)
    (back : ComesBack config.validator) where
  take_header-Returns :
      (info : ProxyInfo) (n : ℕ) (buf : List ℕ) (tcp : TcpStream)
      → n ≤ length buf
      → Returns (take_header config peer info n buf tcp)
  unfolding take_header
  take_header-Returns info n buf tcp h =
      Returns->> _ _ (check_version-Returns config.version info.version peer) (
        Returns->> _ _ (run_validator-Returns config.validator info peer back)
          (rw (slice_from_lem {E = AcceptError} buf n h) tt))

  on_error-Returns :
      (required : Bool) (e : ParseError) (buf : List ℕ) (tcp : TcpStream)
      (again : Outcome ProxiedStream AcceptError)
      → Returns again
      → Returns (on_error config peer required e buf tcp again)
  unfolding on_error
  on_error-Returns required incomplete buf tcp again h = ground arith
  on_error-Returns required not_proxy_protocol buf tcp again h = ground arith
  on_error-Returns required (invalid r) buf tcp again h = tt
  on_error-Returns required (crc_mismatch x y) buf tcp again h = tt

  read_loop-Returns :
      (c : Crc32c) (required : Bool) (buf : List ℕ) (tcp : TcpStream)
      → Returns (read_loop c config peer required buf tcp)
  unfolding read_loop on_parse
  read_loop-Returns c required buf closed = tt
  read_loop-Returns c required buf (broken e) = tt
  read_loop-Returns c required buf (late tcp) = tt
  read_loop-Returns c required buf (chunk [] tcp) = tt
  read_loop-Returns c required buf (chunk (b ∷ bs) tcp) =
      let buf' = buf ++ (b ∷ bs) in
      elim (Returns-cases (parse c buf') (parse-Returns c buf')) [
        | inl ((info, n), e) ↦
            rw e (take_header-Returns info n buf' tcp (parse-fits c buf' info n e))
        | inr (x, e) ↦
            rw e (on_error-Returns required x buf' tcp _ (read_loop-Returns c required buf' tcp))
      ]

  read_and_validate-Returns :
      (c : Crc32c) (other : IoError) (permit : Permit) (required : Bool) (tcp : TcpStream)
      → CanCount config permit
      → Returns (read_and_validate c config peer other permit required tcp)
  unfolding read_and_validate acquire
  read_and_validate-Returns c other (granted room) required tcp count =
      rw (le→leb config.header_timeout room count) (read_loop-Returns c required [] tcp)
  read_and_validate-Returns c other permit_late required tcp count = tt
  read_and_validate-Returns c other semaphore_closed required tcp count = tt

  on_decision-Returns :
      (c : Crc32c) (other : IoError) (permit : Permit) (d : PolicyDecision) (tcp : TcpStream)
      → CanCount config permit
      → Returns (on_decision c config peer other permit d tcp)
  unfolding on_decision
  on_decision-Returns c other permit reject tcp count = tt
  on_decision-Returns c other permit ignore tcp count = tt
  on_decision-Returns c other permit require tcp count =
      read_and_validate-Returns c other permit true tcp count
  on_decision-Returns c other permit use_header tcp count =
      read_and_validate-Returns c other permit false tcp count

  on_policy-Returns :
      (c : Crc32c) (other : IoError) (permit : Permit) (d : Outcome PolicyDecision ⊥)
      (tcp : TcpStream)
      → CanCount config permit
      → Returns d
      → Returns (on_policy c config peer other permit d tcp)
  unfolding on_policy
  on_policy-Returns c other permit (ok d) tcp count back' =
      on_decision-Returns c other permit d tcp count
  on_policy-Returns c other permit (err e) tcp count back' = absurd e
  on_policy-Returns c other permit panic tcp count back' = back'
  on_policy-Returns c other permit stuck tcp count back' = back'

-- If the policy comes back on every peer, the validator comes back on every header, or there is none,
-- and the clock can count the header's timeout from the moment of a permit on, then `accept` comes
-- back, with a stream or with an error, whatever the TCP listener, the semaphore and the connection
-- do: it does not panic, also not where it cuts the buffer behind the header, and its loop ends.
pub accept-Returns :
    (c : Crc32c) (config : ProxyProtocolConfig) (other : IoError) (permit : Permit)
    (conn : Connection)
    → ((peer : SocketAddr) → Returns (config.policy peer))
    → ComesBack config.validator
    → CanCount config permit
    → Returns (accept c config other permit conn)
unfolding accept
accept-Returns c config other permit (accept_failed e) policy back count = tt
accept-Returns c config other permit (connected tcp peer) policy back count =
    on_policy-Returns config peer back c other permit (config.policy peer) tcp count (policy peer)
