-- ===== src/Listener/EndToEnd.antt =====
-- A header that builder.rs writes, sent to the listener of listener.rs.
use proxy_protocol_rs.Prelude.{
  ℕ, ◌≤◌, ◌≡◌, ◌≢◌, refl, sym, ap, ◌∙◌, Bool, if◌then◌else◌, none, some, Option, subst,
  ok-injective, List, [], ◌++◌, append-nil, length, take, drop, take-append, drop-append, ok, err,
  arith,
}
use proxy_protocol_rs.Std.Io.{IoError}
use proxy_protocol_rs.Std.Net.{SocketAddr}
use proxy_protocol_rs.Types.{Version, ProxyInfo, ProxyAddress, inet, unix}
use proxy_protocol_rs.Error.{incomplete}
use proxy_protocol_rs.Crc.{Crc32c}
use proxy_protocol_rs.Parse.Header.{parse}
use proxy_protocol_rs.Parse.Tlv.View.{View}
use proxy_protocol_rs.Builder.Calls.{HeaderBuilder}
use proxy_protocol_rs.Builder.Header.{build}
use proxy_protocol_rs.Builder.Header.Endpoints.{Endpoints}
use proxy_protocol_rs.Builder.Header.TextReachable.{TextBuilt}
use proxy_protocol_rs.Builder.Header.TextRoundTrip.{info_read, parse-build_v1}
use proxy_protocol_rs.Policy.{require, use_header}
use proxy_protocol_rs.Config.{VersionPreference, both, v1_only, v2_only, ProxyProtocolConfig}
use proxy_protocol_rs.Incoming.{TcpStream, bytes_of}
use proxy_protocol_rs.Listener.{granted, check_version, run_validator, connected, accept}
use proxy_protocol_rs.Listener.Decision.{Reaches, seen, decide, accept-decide}

wants_v1 :
    (p : VersionPreference) (peer : SocketAddr)
    → p ≢ v2_only
    → check_version p Version.v1 peer ≡ ok tt
unfolding check_version
wants_v1 both peer h = refl
wants_v1 v1_only peer h = refl
wants_v1 v2_only peer h = absurd (h refl)

module _ (c : Crc32c) (config : ProxyProtocolConfig) (peer : SocketAddr) where
  decide-parsed :
      (required : Bool) (info : ProxyInfo) (n : ℕ) (all : List ℕ)
      → check_version config.version info.version peer ≡ ok tt
      → config.validator ≡ none
      → parse c all ≡ ok (info, n)
      → decide c config peer required all ≡ ok (some info, peer, drop n all)
  unfolding run_validator
  decide-parsed required info n all v none_set e = rw (e, v, none_set)

  -- Bytes that parse as one header, alone and with what follows
  accept-parsed :
      (other : IoError) (room : ℕ) (tcp : TcpStream) (required : Bool) (info alone : ProxyInfo)
      (bytes more : List ℕ)
      → check_version config.version info.version peer ≡ ok tt
      → config.validator ≡ none
      → config.policy peer ≡ ok (if required then require else use_header)
      → length bytes ≤ config.max_header_size
      → bytes_of tcp ≡ bytes ++ more
      → config.header_timeout ≤ room
      → Reaches (length bytes) tcp
      → parse c (bytes ++ []) ≡ ok (alone, length bytes)
      → parse c (bytes ++ more) ≡ ok (info, length bytes)
      → seen (accept c config other (granted room) (connected tcp peer))
        ≡ ok (some info, peer, more)
  accept-parsed other room tcp required info alone bytes more v none_set p fits all count r e f =
      let first : take (length bytes) (bytes_of tcp) ≡ bytes ++ [] =
        ap (take (length bytes)) all
        ∙ (take-append bytes more (length bytes) refl ∙ sym (append-nil bytes)) in
      let whole : parse c (take (length bytes) (bytes_of tcp)) ≢ err incomplete =
        λ q. ground (arith, e, sym (ap (parse c) first) ∙ q) in
      accept-decide c config other room tcp peer required (length bytes) p count r fits whole
      ∙ (ap (decide c config peer required) all
          ∙ (decide-parsed required info (length bytes) (bytes ++ more) v none_set f
              ∙ ap (λ l. ok (some info, peer, l)) (drop-append bytes more (length bytes) refl)))

info_read-version : (s d : Option ProxyAddress) → (info_read s d).version ≡ Version.v1
info_read-version (some (inet s)) (some (inet d)) = refl
info_read-version (some (inet s)) (some (unix d)) = refl
info_read-version (some (inet s)) none = refl
info_read-version (some (unix s)) d = refl
info_read-version none d = refl

-- A v1 header that the constructors and methods made, with any bytes behind it, reaches the
-- application whole: if the policy requires or uses the header, version 1 is wanted, no validator is
-- set, a header of 107 bytes is allowed, a permit comes in time, the clock can count the header's
-- timeout from then on and the header comes in time, then `accept` gives a stream with the builder's
-- two addresses and ports, or an unknown connection, which delivers exactly the bytes behind the
-- header, however the reads cut header and bytes.
pub accept-build_v1 :
    (c : Crc32c) (config : ProxyProtocolConfig) (other : IoError) (room : ℕ) (tcp : TcpStream)
    (peer : SocketAddr) (required : Bool) (h : HeaderBuilder) (bytes more : List ℕ)
    → TextBuilt h
    → build c h ≡ ok bytes
    → config.policy peer ≡ ok (if required then require else use_header)
    → config.version ≢ v2_only
    → config.validator ≡ none
    → 107 ≤ config.max_header_size
    → bytes_of tcp ≡ bytes ++ more
    → config.header_timeout ≤ room
    → Reaches (length bytes) tcp
    → seen (accept c config other (granted room) (connected tcp peer))
      ≡ ok (some (info_read h.source h.destination), peer, more)
accept-build_v1 c config other room tcp peer required h bytes more text built p w none_set fits all
      count r =
    let (line, built', short, alone) = parse-build_v1 c h [] text in
    let (line', built'', short', parsed) = parse-build_v1 c h more text in
    let same : line ≡ bytes = ok-injective (sym built' ∙ built) in
    let same' : line' ≡ bytes = ok-injective (sym built'' ∙ built) in
    let len : length bytes ≤ 107 = subst (λ l. length l ≤ 107) same short in
    let info = info_read h.source h.destination in
    accept-parsed c config peer other room tcp required info info bytes more
      (rw (info_read-version h.source h.destination) (wants_v1 config.version peer w)) none_set p
      (omega arith) all count r (subst (λ l. parse c (l ++ []) ≡ ok (info, length l)) same alone)
      (subst (λ l. parse c (l ++ more) ≡ ok (info, length l)) same' parsed)
