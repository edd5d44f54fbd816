-- ===== src/Listener/Handshakes.antt =====
-- The handshakes of listener.rs under way: calls of `accept` that run interleaved and share the
-- semaphore. A call stands where it waits: for a permit, or for the next read.
pub mod Rounds
pub mod Permits
pub mod Answers
use proxy_protocol_rs.Prelude.{
  ℕ, suc, ◌+◌, ◌≡◌, leb, ltb, Bool, true, false, if◌then◌else◌, none, List, [], ◌∷◌, ◌++◌, length,
  Outcome, ok, err, panic, stuck, ◌>>◌, assert,
}
use proxy_protocol_rs.Std.Io.{IoError}
use proxy_protocol_rs.Std.Net.{SocketAddr}
use proxy_protocol_rs.Types.{ProxyInfo}
use proxy_protocol_rs.Error.{
  ParseError, incomplete, AcceptError, io, rejected, header_timeout, parse_failed,
}
use proxy_protocol_rs.Crc.{Crc32c}
use proxy_protocol_rs.Parse.Header.{parse}
use proxy_protocol_rs.Policy.{PolicyDecision, require, use_header, ignore, reject}
use proxy_protocol_rs.Config.{ProxyProtocolConfig, config_default}
use proxy_protocol_rs.Incoming.{TcpStream, closed, broken, late, chunk, TcpListener}
use proxy_protocol_rs.Stream.{ProxiedStream, new_stream}
use proxy_protocol_rs.Listener.{at_end, take_header, on_error, Connection, connected, accept_failed}

-- `handshake_semaphore` is the number of permits that are free.
pub record ProxyProtocolListener : Type 0 where
  pub inner : TcpListener
  pub config : ProxyProtocolConfig
  pub handshake_semaphore : ℕ

-- `Semaphore::new` panics above `Semaphore::MAX_PERMITS`, a constant of the crate tokio.
unfoldable pub new_listener :
    ℕ → TcpListener → ProxyProtocolConfig → Outcome ProxyProtocolListener ⊥
new_listener max_permits listener config = do
  assert (leb config.max_pending_handshakes max_permits)
  ok (record {
    inner = listener;
    config = config;
    handshake_semaphore = config.max_pending_handshakes;
  })

-- `From<TcpListener>`
unfoldable pub listener_of : ℕ → TcpListener → Outcome ProxyProtocolListener ⊥
unfolding new_listener
listener_of max_permits listener = new_listener max_permits listener config_default

unfoldable pub local_addr : ProxyProtocolListener → Outcome SocketAddr IoError
local_addr l = l.inner.bound_to

pub data Task : Type 0 where
  waiting : (required : Bool) (tcp : TcpStream) (peer : SocketAddr) → Task
  reading : (required : Bool) (tcp : TcpStream) (peer : SocketAddr) (buf : List ℕ) → Task
  finished : Outcome ProxiedStream AcceptError → Task

-- A call of `accept`, with the connection that it got
pub record Call : Type 0 where
  pub conn : Connection
  pub task : Task

-- `accept` as far as the wait for a permit
unfoldable pub begin_on : PolicyDecision → TcpStream → SocketAddr → Task
begin_on reject tcp peer = finished (err (rejected peer))
begin_on ignore tcp peer = finished (ok (new_stream tcp [] none peer))
begin_on require tcp peer = waiting true tcp peer
begin_on use_header tcp peer = waiting false tcp peer

unfoldable pub begin_policy : Outcome PolicyDecision ⊥ → TcpStream → SocketAddr → Task
unfolding begin_on
begin_policy (ok decision) tcp peer = begin_on decision tcp peer
begin_policy (err e) tcp peer = absurd e
begin_policy panic tcp peer = finished panic
begin_policy stuck tcp peer = finished stuck

unfoldable pub begin : ProxyProtocolConfig → Connection → Task
unfolding begin_policy
begin config (connected tcp peer) = begin_policy (config.policy peer) tcp peer
begin config (accept_failed e) = finished (err (io e))

-- One round of the loop of `read_and_validate`: it returns, or goes on with what is read so far.
pub data Round : Type 0 where
  done : Outcome ProxiedStream AcceptError → Round
  more : List ℕ → TcpStream → Round

-- Behind the wait, `Instant::now() + header_timeout` panics where the clock cannot count that far.
unfoldable pub set_deadline : ProxyProtocolConfig → ℕ → TcpStream → Round
set_deadline config room tcp = if leb config.header_timeout room then more [] tcp else done panic

module _ (config : ProxyProtocolConfig) (peer : SocketAddr) (required : Bool) where
  unfoldable pub round_error : ParseError → List ℕ → TcpStream → Round
  round_error incomplete buf tcp =
      if ltb (length buf) config.max_header_size
      then more buf tcp
      else done (err (parse_failed incomplete peer))
  round_error e buf tcp = done (on_error config peer required e buf tcp stuck)

  unfoldable pub round_parse : Outcome (ProxyInfo × ℕ) ParseError → List ℕ → TcpStream → Round
  round_parse (ok (info, consumed)) buf tcp = done (take_header config peer info consumed buf tcp)
  round_parse (err e) buf tcp = round_error e buf tcp
  round_parse panic buf tcp = done panic
  round_parse stuck buf tcp = done stuck

  unfoldable pub round : Crc32c → List ℕ → TcpStream → Round
  unfolding round_parse round_error
  round c buf closed = done (err (at_end buf peer))
  round c buf (broken e) = done (err (io e))
  round c buf (late tcp) = done (err (header_timeout peer))
  round c buf (chunk [] tcp) = done (err (at_end buf peer))
  round c buf (chunk (b ∷ bs) tcp) = round_parse (parse c (buf ++ (b ∷ bs))) (buf ++ (b ∷ bs)) tcp

-- A call that returns or panics gives its permit back.
abbrev pub resume : Bool → SocketAddr → Round → Task
resume required peer (done o) = finished o
resume required peer (more buf tcp) = reading required tcp peer buf

abbrev pub given_back : Round → ℕ
given_back (done o) = 1
given_back (more buf tcp) = 0

-- The permits that a call holds
abbrev pub held : Task → ℕ
held (waiting required tcp peer) = 0
held (reading required tcp peer buf) = 1
held (finished o) = 0

-- A call that does not wait for a permit
abbrev pub IsAhead : Task → Type 0
IsAhead (waiting required tcp peer) = ⊥
IsAhead (reading required tcp peer buf) = Unit {0}
IsAhead (finished o) = Unit {0}

pub record Running : Type 0 where
  pub listener : ProxyProtocolListener
  pub calls : List Call

abbrev pub at : Connection → Task → Call
at conn task = record { conn = conn; task = task }

abbrev pub go_on : Running → ℕ → List Call → Running
go_on s free calls = record {
  listener = record {
    inner = s.listener.inner;
    config = s.listener.config;
    handshake_semaphore = free;
  };
  calls = calls;
}

-- No call waits. The calls stand with the newest first.
abbrev pub NoneWaits : List Call → Type 0
NoneWaits [] = Unit {0}
NoneWaits (x ∷ xs) = IsAhead x.task × NoneWaits xs

module _ (c : Crc32c) where
  -- One call moves. The semaphore is fair: a permit goes to the call that has waited longest. A call goes away when its caller takes the answer, or drops the future before;
  -- a permit that it holds is then given back.
  pub data Step (s t : Running) : Type 0 where
    start :
        (conn : Connection)
        → t
          ≡ go_on s s.listener.handshake_semaphore
              (at conn (begin s.listener.config conn) ∷ s.calls)
        → Step s t
    acquire :
        (front back : List Call) (conn : Connection) (required : Bool) (tcp : TcpStream)
        (peer : SocketAddr) (free room : ℕ) (r : Round)
        → s.calls ≡ front ++ (at conn (waiting required tcp peer) ∷ back)
        → NoneWaits back
        → s.listener.handshake_semaphore ≡ suc free
        → set_deadline s.listener.config room tcp ≡ r
        → t ≡ go_on s (free + given_back r) (front ++ (at conn (resume required peer r) ∷ back))
        → Step s t
    time_out :
        (front back : List Call) (conn : Connection) (required : Bool) (tcp : TcpStream)
        (peer : SocketAddr)
        → s.calls ≡ front ++ (at conn (waiting required tcp peer) ∷ back)
        → t
          ≡ go_on s s.listener.handshake_semaphore
              (front ++ (at conn (finished (err (header_timeout peer))) ∷ back))
        → Step s t
    read :
        (front back : List Call) (conn : Connection) (required : Bool) (tcp : TcpStream)
        (peer : SocketAddr) (buf : List ℕ) (r : Round)
        → s.calls ≡ front ++ (at conn (reading required tcp peer buf) ∷ back)
        → round s.listener.config peer required c buf tcp ≡ r
        → t
          ≡ go_on s
              (s.listener.handshake_semaphore + given_back r)
              (front ++ (at conn (resume required peer r) ∷ back))
        → Step s t
    leave :
        (front back : List Call) (call : Call)
        → s.calls ≡ front ++ (call ∷ back)
        → t ≡ go_on s (s.listener.handshake_semaphore + held call.task) (front ++ back)
        → Step s t

  -- What a new listener comes to
  pub data Reach (l : ProxyProtocolListener) : Running → Type 0 where
    fresh : Reach l (record { listener = l; calls = [] })
    later : {s t : Running} → Reach l s → Step s t → Reach l t
