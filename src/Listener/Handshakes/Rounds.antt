-- ===== src/Listener/Handshakes/Rounds.antt =====
-- One round of the loop of listener.rs against the whole loop.
use proxy_protocol_rs.Prelude.{
  ℕ, ◌<◌, ◌≡◌, refl, inl, inr, Bool, ltb, ltb→lt, Bool-cases, List, [], ◌∷◌, ◌++◌, length, Outcome,
  ok, err, panic, stuck,
}
use proxy_protocol_rs.Std.Net.{SocketAddr}
use proxy_protocol_rs.Types.{ProxyInfo}
use proxy_protocol_rs.Error.{
  ParseError, not_proxy_protocol, incomplete, invalid, crc_mismatch, AcceptError,
}
use proxy_protocol_rs.Crc.{Crc32c}
use proxy_protocol_rs.Parse.Header.{parse}
use proxy_protocol_rs.Config.{ProxyProtocolConfig}
use proxy_protocol_rs.Incoming.{TcpStream, closed, broken, late, chunk}
use proxy_protocol_rs.Stream.{ProxiedStream}
use proxy_protocol_rs.Listener.{on_error, on_parse, read_loop}
use proxy_protocol_rs.Listener.Handshakes.{Round, done, more, round_error, round_parse, round}

module _ (config : ProxyProtocolConfig) (peer : SocketAddr) (required : Bool) (c : Crc32c) where
  -- The loop from behind a round on
  abbrev pub after : Round → Outcome ProxiedStream AcceptError
  after (done o) = o
  after (more buf tcp) = read_loop c config peer required buf tcp

  after-round_error :
      (e : ParseError) (buf : List ℕ) (tcp : TcpStream)
      → after (round_error config peer required e buf tcp)
        ≡ on_error config peer required e buf tcp (read_loop c config peer required buf tcp)
  unfolding round_error on_error
  after-round_error incomplete buf tcp =
      elim (Bool-cases (ltb (length buf) config.max_header_size)) [ inl e ↦ rw e | inr e ↦ rw e ]
  after-round_error not_proxy_protocol buf tcp = refl
  after-round_error (invalid r) buf tcp = refl
  after-round_error (crc_mismatch x y) buf tcp = refl

  after-round_parse :
      (p : Outcome (ProxyInfo × ℕ) ParseError) (buf : List ℕ) (tcp : TcpStream)
      → after (round_parse config peer required p buf tcp)
        ≡ on_parse config peer required p buf tcp (read_loop c config peer required buf tcp)
  unfolding round_parse on_parse
  after-round_parse (ok (info, n)) buf tcp = refl
  after-round_parse (err e) buf tcp = after-round_error e buf tcp
  after-round_parse panic buf tcp = refl
  after-round_parse stuck buf tcp = refl

  -- The loop is its rounds.
  pub after-round :
      (buf : List ℕ) (tcp : TcpStream)
      → after (round config peer required c buf tcp) ≡ read_loop c config peer required buf tcp
  unfolding round read_loop
  after-round buf closed = refl
  after-round buf (broken e) = refl
  after-round buf (late tcp) = refl
  after-round buf (chunk [] tcp) = refl
  after-round buf (chunk (b ∷ bs) tcp) =
      after-round_parse (parse c (buf ++ (b ∷ bs))) (buf ++ (b ∷ bs)) tcp

  -- What a round that goes on has read is shorter than a header may be.
  abbrev pub IsShort : Round → Type 0
  IsShort (done o) = Unit {0}
  IsShort (more buf tcp) = length buf < config.max_header_size

  round_error-IsShort :
      (e : ParseError) (buf : List ℕ) (tcp : TcpStream)
      → IsShort (round_error config peer required e buf tcp)
  unfolding round_error
  round_error-IsShort incomplete buf tcp =
      elim (Bool-cases (ltb (length buf) config.max_header_size)) [
        | inl e ↦ rw e (ltb→lt _ _ e)
        | inr e ↦ rw e tt
      ]
  round_error-IsShort not_proxy_protocol buf tcp = tt
  round_error-IsShort (invalid r) buf tcp = tt
  round_error-IsShort (crc_mismatch x y) buf tcp = tt

  round_parse-IsShort :
      (p : Outcome (ProxyInfo × ℕ) ParseError) (buf : List ℕ) (tcp : TcpStream)
      → IsShort (round_parse config peer required p buf tcp)
  unfolding round_parse
  round_parse-IsShort (ok (info, n)) buf tcp = tt
  round_parse-IsShort (err e) buf tcp = round_error-IsShort e buf tcp
  round_parse-IsShort panic buf tcp = tt
  round_parse-IsShort stuck buf tcp = tt

  pub round-IsShort :
      (buf : List ℕ) (tcp : TcpStream) → IsShort (round config peer required c buf tcp)
  unfolding round
  round-IsShort buf closed = tt
  round-IsShort buf (broken e) = tt
  round-IsShort buf (late tcp) = tt
  round-IsShort buf (chunk [] tcp) = tt
  round-IsShort buf (chunk (b ∷ bs) tcp) =
      round_parse-IsShort (parse c (buf ++ (b ∷ bs))) (buf ++ (b ∷ bs)) tcp
