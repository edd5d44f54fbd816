-- ===== src/Listener/Decision.antt =====
-- What the loop of listener.rs decides on, in terms of all bytes that the connection brings and not
-- of how its reads cut them.
use proxy_protocol_rs.Prelude.{
  ℕ, zero, suc, ◌+◌, ◌-◌, ◌≤◌, le→leb, ◌<◌, ◌≡◌, ◌≢◌, refl, sym, ap, ◌∙◌, ◌⊎◌, inl, inr, Bool, true,
  false, not, ltb, ltb→lt, lt→ltb, ltb_false→le, Bool-cases, if◌then◌else◌, Option, none, some,
  List, [], ◌∷◌, ◌++◌, append_assoc, length, length-append, take, drop, take-append_le,
  take-append-drop, drop-append_le, slice_from_lem, Outcome, ok, err, panic, stuck, ◌>>◌,
  Returns-cases, arith,
}
use proxy_protocol_rs.Std.Io.{IoError}
use proxy_protocol_rs.Policy.{require, use_header}
use proxy_protocol_rs.Std.Net.{SocketAddr}
use proxy_protocol_rs.Types.{ProxyInfo}
use proxy_protocol_rs.Error.{
  ParseError, incomplete, not_proxy_protocol, invalid, crc_mismatch, AcceptError, parse_failed,
}
use proxy_protocol_rs.Crc.{Crc32c}
use proxy_protocol_rs.Parse.Header.{parse}
use proxy_protocol_rs.Parse.Header.Total.{parse-Returns, parse-append}
use proxy_protocol_rs.Parse.Header.Consumed.{parse-fits}
use proxy_protocol_rs.Config.{ProxyProtocolConfig}
use proxy_protocol_rs.Incoming.{TcpStream, closed, broken, late, chunk, bytes_of}
use proxy_protocol_rs.Stream.{ProxiedStream, new_stream}
use proxy_protocol_rs.Stream.Reading.{unread}
use proxy_protocol_rs.Listener.{
  check_version, run_validator, at_end, take_header, on_error, on_parse, read_loop, granted,
  acquire, read_and_validate, on_decision, on_policy, connected, accept,
}

-- What the caller can see of a stream: the header, the peer, and the bytes still to read.
abbrev pub Seen : Type 0
Seen = Option ProxyInfo × SocketAddr × List ℕ

abbrev pub seen : Outcome ProxiedStream AcceptError → Outcome Seen AcceptError
seen (ok s) = ok (s.proxy_info, s.peer_addr, unread s)
seen (err e) = err e
seen panic = panic
seen stuck = stuck

-- The first `k` bytes come before the deadline, in reads that are not empty.
abbrev pub Reaches : ℕ → TcpStream → Type 0
Reaches zero tcp = Unit {0}
Reaches (suc k) closed = ⊥
Reaches (suc k) (broken e) = ⊥
Reaches (suc k) (late tcp) = ⊥
Reaches (suc k) (chunk [] tcp) = ⊥
Reaches (suc k) (chunk (b ∷ bs) tcp) = Reaches (k - length bs) tcp

pub incomplete-cases : (e : ParseError) → (e ≡ incomplete) ⊎ (e ≢ incomplete)
incomplete-cases incomplete = inl refl
incomplete-cases not_proxy_protocol = inr (λ q. cc)
incomplete-cases (invalid r) = inr (λ q. cc)
incomplete-cases (crc_mismatch x y) = inr (λ q. cc)

module _ (c : Crc32c) (config : ProxyProtocolConfig) (peer : SocketAddr) (required : Bool) where
  -- The decision on all bytes at once
  abbrev pub on_all : Outcome (ProxyInfo × ℕ) ParseError → List ℕ → Outcome Seen AcceptError
  on_all (ok (info, n)) all = do
    check_version config.version info.version peer
    run_validator config.validator info peer
    ok (some info, peer, drop n all)
  on_all (err incomplete) all = err (at_end all peer)
  on_all (err not_proxy_protocol) all =
      if not required then ok (none, peer, all) else err (parse_failed not_proxy_protocol peer)
  on_all (err e) all = err (parse_failed e peer)
  on_all panic all = panic
  on_all stuck all = stuck

  abbrev pub decide : List ℕ → Outcome Seen AcceptError
  decide all = on_all (parse c all) all

  through :
      (tcp : TcpStream) (left : List ℕ) (info : ProxyInfo) (r q : Outcome (Unit {0}) AcceptError)
      → seen (r >> (q >> ok (new_stream tcp left (some info) peer)))
        ≡ (r >> (q >> ok (some info, peer, left ++ bytes_of tcp)))
  through tcp left info (ok u) (ok w) = refl
  through tcp left info (ok u) (err e) = refl
  through tcp left info (ok u) panic = refl
  through tcp left info (ok u) stuck = refl
  through tcp left info (err e) q = refl
  through tcp left info panic q = refl
  through tcp left info stuck q = refl

  pub take_header-seen :
      (info : ProxyInfo) (n : ℕ) (buf : List ℕ) (tcp : TcpStream)
      → n ≤ length buf
      → seen (take_header config peer info n buf tcp) ≡ on_all (ok (info, n)) (buf ++ bytes_of tcp)
  unfolding take_header
  take_header-seen info n buf tcp h =
      rw (slice_from_lem {E = AcceptError} buf n h, drop-append_le buf (bytes_of tcp) n h)
        (through tcp (drop n buf) info (check_version config.version info.version peer)
          (run_validator config.validator info peer))

  pub on_error-seen :
      (e : ParseError) (buf : List ℕ) (tcp : TcpStream) (again : Outcome ProxiedStream AcceptError)
      → e ≢ incomplete
      → seen (on_error config peer required e buf tcp again) ≡ on_all (err e) (buf ++ bytes_of tcp)
  unfolding on_error
  on_error-seen incomplete buf tcp again h = absurd (h refl)
  on_error-seen not_proxy_protocol buf tcp again h = elim (Bool-cases required) [
    | inl e ↦ rw e
    | inr e ↦ rw e
  ]
  on_error-seen (invalid r) buf tcp again h = refl
  on_error-seen (crc_mismatch x y) buf tcp again h = refl

  -- An answer on a first part of the bytes is the answer on all of them.
  pub parse_all :
      (buf more : List ℕ) {r : Outcome (ProxyInfo × ℕ) ParseError}
      → parse c buf ≡ r
      → r ≢ err incomplete
      → parse c (buf ++ more) ≡ r
  parse_all buf more e h = parse-append c buf more (λ q. h (sym e ∙ q)) ∙ e

  -- If the parser wants more than `buf`, then `buf` is shorter than bytes that it does not want more of.
  shorter :
      (buf more : List ℕ) (m : ℕ)
      → parse c buf ≡ err incomplete
      → parse c (take m (buf ++ more)) ≢ err incomplete
      → length buf < m
  shorter buf more m e h = elim (Bool-cases (ltb (length buf) m)) [
    | inl lt ↦ ltb→lt _ _ lt
    | inr ge ↦
        let le : m ≤ length buf = ltb_false→le _ _ ge in
        let part = take-append_le buf more m le in
        let whole = parse_all (take m buf) (drop m buf) refl (λ q. h (ap (parse c) part ∙ q)) in
        absurd (h (ap (parse c) part ∙ (sym whole ∙ (ap (parse c) (take-append-drop m buf) ∙ e))))
  ]

  read_loop-seen :
      (buf : List ℕ) (tcp : TcpStream) (k : ℕ)
      → parse c buf ≡ err incomplete
      → Reaches k tcp
      → length buf + k ≤ config.max_header_size
      → parse c (take (length buf + k) (buf ++ bytes_of tcp)) ≢ err incomplete
      → seen (read_loop c config peer required buf tcp) ≡ decide (buf ++ bytes_of tcp)
  unfolding read_loop on_parse on_error parse
  read_loop-seen buf tcp zero e r fits h =
      absurd (omega (arith, shorter buf (bytes_of tcp) (length buf + 0) e h))
  read_loop-seen buf closed (suc k) e r fits h = absurd r
  read_loop-seen buf (broken x) (suc k) e r fits h = absurd r
  read_loop-seen buf (late tcp) (suc k) e r fits h = absurd r
  read_loop-seen buf (chunk [] tcp) (suc k) e r fits h = absurd r
  read_loop-seen buf (chunk (b ∷ bs) tcp) (suc k) e r fits h =
      let buf' = buf ++ (b ∷ bs) in
      let more = bytes_of tcp in
      let m = length buf + suc k in
      let same : buf' ++ more ≡ buf ++ ((b ∷ bs) ++ more) = append_assoc buf (b ∷ bs) more in
      let len = length-append buf (b ∷ bs) in
      let h' : parse c (take m (buf' ++ more)) ≢ err incomplete =
        λ q. h (ap (λ l. parse c (take m l)) (sym same) ∙ q) in
      (elim (Returns-cases (parse c buf') (parse-Returns c buf')) [
        | inl ((info, n), q) ↦
            rw (q, parse_all buf' more q (λ w. cc))
              (take_header-seen info n buf' tcp (parse-fits c buf' info n q))
        | inr (x, q) ↦ elim (incomplete-cases x) [
          | inl i ↦
              let q' : parse c buf' ≡ err incomplete = q ∙ ap err i in
              let lt = shorter buf' more m q' h' in
              let k' : length buf' + (k - length bs) ≡ m = omega (arith, len) in
              rw (q', lt→ltb (length buf') config.max_header_size (omega arith))
                (read_loop-seen buf' tcp (k - length bs) q' r (omega arith)
                  (λ w. h' (ap (λ j. parse c (take j (buf' ++ more))) (sym k') ∙ w)))
          | inr i ↦
              rw (q, parse_all buf' more q (λ w. i (ground arith))) (on_error-seen x buf' tcp _ i)
        ]
      ])
      ∙ ap decide same

  pub read_and_validate-decide :
      (other : IoError) (room : ℕ) (tcp : TcpStream) (k : ℕ)
      → config.header_timeout ≤ room
      → Reaches k tcp
      → k ≤ config.max_header_size
      → parse c (take k (bytes_of tcp)) ≢ err incomplete
      → seen (read_and_validate c config peer other (granted room) required tcp)
        ≡ decide (bytes_of tcp)
  unfolding read_and_validate acquire parse
  read_and_validate-decide other room tcp k count r fits h =
      let zero_plus : 0 + k ≡ k = omega arith in
      rw (le→leb config.header_timeout room count) (
        read_loop-seen [] tcp k refl r (omega arith)
          (λ q. h (ap (λ j. parse c (take j (bytes_of tcp))) (sym zero_plus) ∙ q)))

-- If the policy requires or uses the header of the peer, a permit comes in time and the clock can
-- count the header's timeout from then on, the first `k` bytes that the connection brings come in
-- time, the configuration allows a header of `k` bytes, and the parser wants no more than those, then
-- what `accept` gives is decided by the bytes alone, however the reads cut them: it is the parser's
-- answer on all bytes of the connection, with the version and the validator checked, and with every
-- byte behind the header still to read. Where the policy does not require a header and the bytes are
-- not the protocol's, it is all bytes.
pub accept-decide :
    (c : Crc32c) (config : ProxyProtocolConfig) (other : IoError) (room : ℕ) (tcp : TcpStream)
    (peer : SocketAddr) (required : Bool) (k : ℕ)
    → config.policy peer ≡ ok (if required then require else use_header)
    → config.header_timeout ≤ room
    → Reaches k tcp
    → k ≤ config.max_header_size
    → parse c (take k (bytes_of tcp)) ≢ err incomplete
    → seen (accept c config other (granted room) (connected tcp peer))
      ≡ decide c config peer required (bytes_of tcp)
unfolding accept on_policy on_decision
accept-decide c config other room tcp peer true k p count r fits h =
    rw p (read_and_validate-decide c config peer true other room tcp k count r fits h)
accept-decide c config other room tcp peer false k p count r fits h =
    rw p (read_and_validate-decide c config peer false other room tcp k count r fits h)
