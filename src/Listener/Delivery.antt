-- ===== src/Listener/Delivery.antt =====
-- What a stream that `accept` of listener.rs gives is made of, for any connection.
use proxy_protocol_rs.Prelude.{
  ℕ, ◌≡◌, ◌≢◌, refl, sym, ap, ◌∙◌, inl, inr, Bool, true, false, ltb, Bool-cases, if◌then◌else◌,
  Option, none, some, List, [], ◌∷◌, ◌++◌, append_assoc, length, drop, Outcome, ok, err, panic,
  stuck, >>-eq-ok, assert, leb, ok-injective, Returns-cases, arith,
}
use proxy_protocol_rs.Std.Io.{IoError}
use proxy_protocol_rs.Std.Net.{SocketAddr}
use proxy_protocol_rs.Types.{Version, ProxyInfo}
use proxy_protocol_rs.Error.{ParseError, incomplete, not_proxy_protocol, invalid, crc_mismatch}
use proxy_protocol_rs.Crc.{Crc32c}
use proxy_protocol_rs.Parse.Header.{parse}
use proxy_protocol_rs.Parse.Header.Total.{parse-Returns}
use proxy_protocol_rs.Parse.Header.Consumed.{parse-fits}
use proxy_protocol_rs.Policy.{PolicyDecision, require, use_header, ignore, reject}
use proxy_protocol_rs.Config.{
  HeaderValidator, VersionPreference, both, v1_only, v2_only, ProxyProtocolConfig,
}
use proxy_protocol_rs.Incoming.{TcpStream, closed, broken, late, chunk, bytes_of}
use proxy_protocol_rs.Stream.{ProxiedStream, new_stream}
use proxy_protocol_rs.Stream.Reading.{unread}
use proxy_protocol_rs.Listener.{
  Permit, granted, permit_late, semaphore_closed, check_version, validated, run_validator, acquire,
  on_error, on_parse, read_loop, read_and_validate, on_decision, on_policy, connected, accept,
}
use proxy_protocol_rs.Listener.Decision.{
  Seen, seen, on_all, decide, take_header-seen, on_error-seen, parse_all, incomplete-cases,
}

module _ (c : Crc32c) (config : ProxyProtocolConfig) (peer : SocketAddr) (required : Bool) where
  read_loop_sound :
      (buf : List ℕ) (tcp : TcpStream) (s : ProxiedStream)
      → read_loop c config peer required buf tcp ≡ ok s
      → decide c config peer required (buf ++ bytes_of tcp) ≡ seen (ok s)
  unfolding read_loop on_parse on_error parse
  read_loop_sound buf closed s h = cc
  read_loop_sound buf (broken x) s h = cc
  read_loop_sound buf (late tcp) s h = cc
  read_loop_sound buf (chunk [] tcp) s h = cc
  read_loop_sound buf (chunk (b ∷ bs) tcp) s h =
      let buf' = buf ++ (b ∷ bs) in
      let more = bytes_of tcp in
      ap (decide c config peer required) (sym (append_assoc buf (b ∷ bs) more))
      ∙ elim (Returns-cases (parse c buf') (parse-Returns c buf')) [
        | inl ((info, n), q) ↦ rw (parse_all c config peer required buf' more q (λ w. cc)) (
            sym
              (take_header-seen c config peer required info n buf' tcp (parse-fits c buf' info n q))
            ∙ ap seen (rw q at h))
        | inr (x, q) ↦ elim (incomplete-cases x) [
          | inl i ↦ elim (Bool-cases (ltb (length buf') config.max_header_size)) [
            | inl small ↦ read_loop_sound buf' tcp s (rw (q, i, small) at h)
            | inr full ↦ absurd (ground (arith, rw (q, i, full) at h))
          ]
          | inr i ↦
              rw (parse_all c config peer required buf' more q (λ w. i (ground arith)))
                (sym (on_error-seen c config peer required x buf' tcp _ i) ∙ ap seen (rw q at h))
        ]
      ]

-- The header's version is one that the configuration prefers.
abbrev pub IsWanted : VersionPreference → Version → Type 0
IsWanted p v = (p ≡ v1_only → v ≡ Version.v1) × (p ≡ v2_only → v ≡ Version.v2)

-- The validator, where there is one, accepts the header.
abbrev pub IsValid : Option HeaderValidator → ProxyInfo → SocketAddr → Type 0
IsValid o info peer = (v : HeaderValidator) → o ≡ some v → v info peer ≡ ok tt

check_version-IsWanted :
    (p : VersionPreference) (v : Version) (peer : SocketAddr)
    → check_version p v peer ≡ ok tt
    → IsWanted p v
unfolding check_version
check_version-IsWanted both v peer h = (λ e. cc, λ e. cc)
check_version-IsWanted v1_only Version.v1 peer h = (λ e. refl, λ e. cc)
check_version-IsWanted v1_only Version.v2 peer h = cc
check_version-IsWanted v2_only Version.v1 peer h = cc
check_version-IsWanted v2_only Version.v2 peer h = (λ e. cc, λ e. refl)

validated-ok :
    (r : Outcome (Unit {0}) (List ℕ)) (peer : SocketAddr) → validated r peer ≡ ok tt → r ≡ ok tt
validated-ok (ok u) peer h = refl
validated-ok (err e) peer h = cc
validated-ok panic peer h = cc
validated-ok stuck peer h = cc

run_validator-IsValid :
    (o : Option HeaderValidator) (info : ProxyInfo) (peer : SocketAddr)
    → run_validator o info peer ≡ ok tt
    → IsValid o info peer
unfolding run_validator
run_validator-IsValid o info peer h v e = validated-ok (v info peer) peer (rw e at h)

-- The ways in which a connection with the bytes `all` becomes a stream.
pub data Accepted (c : Crc32c) (config : ProxyProtocolConfig) (peer : SocketAddr) (all : List ℕ)
    (s : ProxiedStream) : Type 0 where
  passed_through :
      config.policy peer ≡ ok ignore
      → s.proxy_info ≡ none
      → unread s ≡ all
      → Accepted c config peer all s
  direct :
      config.policy peer ≡ ok use_header
      → parse c all ≡ err not_proxy_protocol
      → s.proxy_info ≡ none
      → unread s ≡ all
      → Accepted c config peer all s
  proxied :
      (info : ProxyInfo) (n : ℕ)
      → config.policy peer ≢ ok ignore
      → config.policy peer ≢ ok reject
      → parse c all ≡ ok (info, n)
      → IsWanted config.version info.version
      → IsValid config.validator info peer
      → s.proxy_info ≡ some info
      → unread s ≡ drop n all
      → Accepted c config peer all s

module _ (c : Crc32c) (config : ProxyProtocolConfig) (peer : SocketAddr) where
  decided-Accepted :
      (required : Bool) (r : Outcome (ProxyInfo × ℕ) ParseError) (all : List ℕ) (s : ProxiedStream)
      → config.policy peer ≡ ok (if required then require else use_header)
      → parse c all ≡ r
      → on_all c config peer required r all ≡ seen (ok s)
      → Accepted c config peer all s × (s.peer_addr ≡ peer)
  decided-Accepted required (ok (info, n)) all s p e h =
      let (wanted, h1) = >>-eq-ok (check_version config.version info.version peer) _ h in
      let (valid, h2) = >>-eq-ok (run_validator config.validator info peer) _ h1 in
      let same : ◌≡◌ {A = Seen} (some info, peer, drop n all)
          (s.proxy_info, s.peer_addr, unread s) =
        ok-injective h2 in
      (
        proxied info n (λ q. ground arith) (λ q. ground arith) e
            (check_version-IsWanted config.version info.version peer wanted)
            (run_validator-IsValid config.validator info peer valid) (sym (ap (λ t. t.0) same))
            (sym (ap (λ t. t.2) same)),
        sym (ap (λ t. t.1) same),
      )
  decided-Accepted true (err not_proxy_protocol) all s p e h = cc
  decided-Accepted false (err not_proxy_protocol) all s p e h =
      let same : ◌≡◌ {A = Seen} (none, peer, all) (s.proxy_info, s.peer_addr, unread s) =
        ok-injective h in
      (direct p e (sym (ap (λ t. t.0) same)) (sym (ap (λ t. t.2) same)), sym (ap (λ t. t.1) same))
  decided-Accepted required (err incomplete) all s p e h = cc
  decided-Accepted required (err (invalid x)) all s p e h = cc
  decided-Accepted required (err (crc_mismatch x y)) all s p e h = cc
  decided-Accepted required panic all s p e h = cc
  decided-Accepted required stuck all s p e h = cc

  read_and_validate-Accepted :
      (other : IoError) (permit : Permit) (required : Bool) (tcp : TcpStream) (s : ProxiedStream)
      → config.policy peer ≡ ok (if required then require else use_header)
      → read_and_validate c config peer other permit required tcp ≡ ok s
      → Accepted c config peer (bytes_of tcp) s × (s.peer_addr ≡ peer)
  unfolding read_and_validate acquire
  read_and_validate-Accepted other (granted room) required tcp s p h =
      let (_, h') = >>-eq-ok (assert (leb config.header_timeout room)) _ h in
      decided-Accepted required (parse c (bytes_of tcp)) (bytes_of tcp) s p refl
        (read_loop_sound c config peer required [] tcp s h')
  read_and_validate-Accepted other permit_late required tcp s p h = cc
  read_and_validate-Accepted other semaphore_closed required tcp s p h = cc

  on_decision-Accepted :
      (other : IoError) (permit : Permit) (d : PolicyDecision) (tcp : TcpStream) (s : ProxiedStream)
      → config.policy peer ≡ ok d
      → on_decision c config peer other permit d tcp ≡ ok s
      → Accepted c config peer (bytes_of tcp) s × (s.peer_addr ≡ peer)
  unfolding on_decision
  on_decision-Accepted other permit reject tcp s p h = cc
  on_decision-Accepted other permit ignore tcp s p h =
      let same : new_stream tcp [] none peer ≡ s = ok-injective h in
      (
        passed_through p (sym (ap (λ t. t.proxy_info) same)) (sym (ap unread same)),
        sym (ap (λ t. t.peer_addr) same),
      )
  on_decision-Accepted other permit require tcp s p h =
      read_and_validate-Accepted other permit true tcp s p h
  on_decision-Accepted other permit use_header tcp s p h =
      read_and_validate-Accepted other permit false tcp s p h

  on_policy-Accepted :
      (other : IoError) (permit : Permit) (d : Outcome PolicyDecision ⊥) (tcp : TcpStream)
      (s : ProxiedStream)
      → config.policy peer ≡ d
      → on_policy c config peer other permit d tcp ≡ ok s
      → Accepted c config peer (bytes_of tcp) s × (s.peer_addr ≡ peer)
  unfolding on_policy
  on_policy-Accepted other permit (ok d) tcp s p h = on_decision-Accepted other permit d tcp s p h
  on_policy-Accepted other permit (err e) tcp s p h = absurd e
  on_policy-Accepted other permit panic tcp s p h = cc
  on_policy-Accepted other permit stuck tcp s p h = cc

-- If `accept` gives a stream, then the peer is the stream's and no byte of the connection is lost
-- or changed, whatever the connection does. Either the policy ignores headers, and the stream
-- delivers all bytes; or the policy has a header optional, the bytes are not the protocol's, and
-- the stream delivers all of them; or the policy neither ignores nor rejects the peer, the parser
-- accepts the bytes of the connection, the header's version is wanted, the validator accepts the
-- header, the stream has the header, and it delivers exactly the bytes behind the header.
pub accept-Accepted :
    (c : Crc32c) (config : ProxyProtocolConfig) (other : IoError) (permit : Permit)
    (tcp : TcpStream) (peer : SocketAddr) (s : ProxiedStream)
    → accept c config other permit (connected tcp peer) ≡ ok s
    → Accepted c config peer (bytes_of tcp) s × (s.peer_addr ≡ peer)
unfolding accept
accept-Accepted c config other permit tcp peer s h =
    on_policy-Accepted c config peer other permit (config.policy peer) tcp s refl h
