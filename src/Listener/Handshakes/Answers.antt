-- ===== src/Listener/Handshakes/Answers.antt =====
-- What the calls of `accept` of listener.rs that run interleaved come back with.
use proxy_protocol_rs.Prelude.{
  ℕ, ◌+◌, ◌*◌, ◌≤◌, ◌<◌, ◌≡◌, inl, inr, ◌⊎◌, refl, sym, ap, ◌∙◌, subst, Bool, List, [], ◌∷◌, ◌++◌,
  length, All, All-append, All-split, Outcome, ok, err, panic, stuck, leb, Bool-cases, arith,
}
use proxy_protocol_rs.Std.Io.{other_kind, IoError}
use proxy_protocol_rs.Std.Net.{SocketAddr}
use proxy_protocol_rs.Error.{AcceptError}
use proxy_protocol_rs.Crc.{Crc32c}
use proxy_protocol_rs.Policy.{PolicyDecision, require, use_header, ignore, reject}
use proxy_protocol_rs.Config.{ProxyProtocolConfig}
use proxy_protocol_rs.Incoming.{TcpStream, TcpListener}
use proxy_protocol_rs.Stream.{ProxiedStream}
use proxy_protocol_rs.Listener.{
  Permit, granted, permit_late, acquire, read_loop, read_and_validate, on_decision, on_policy,
  Connection, connected, accept_failed, accept,
}
use proxy_protocol_rs.Listener.Handshakes.{
  ProxyProtocolListener, new_listener, Task, waiting, reading, finished, Call, at, begin_on,
  begin_policy, begin, set_deadline, Round, done, more, round, resume, held, Running, Step, start,
  time_out, read, leave, Reach, fresh, later,
}
use proxy_protocol_rs.Listener.Handshakes.Rounds.{after, after-round, IsShort, round-IsShort}
use proxy_protocol_rs.Listener.Handshakes.Permits.{
  handshakes, handshakes_bounded, new_listener-lem, Reach-config,
}

module _ (c : Crc32c) (config : ProxyProtocolConfig) (other : IoError) where
  abbrev Decided : Connection → Bool → TcpStream → SocketAddr → Type 0
  Decided conn required tcp peer =
      (permit : Permit)
      → accept c config other permit conn
        ≡ read_and_validate c config peer other permit required tcp

  -- What a call stands for: `accept` with a permit in time, or too late
  abbrev Follows : Connection → Task → Type 0
  Follows conn (waiting required tcp peer) = Decided conn required tcp peer
  Follows conn (reading required tcp peer buf) =
      (room : ℕ) × (accept c config other (granted room) conn
        ≡ read_loop c config peer required buf tcp)
      × ((buf ≡ []) ⊎ (length buf < config.max_header_size))
  Follows conn (finished o) =
      ((room : ℕ) × (o ≡ accept c config other (granted room) conn))
      ⊎ (o ≡ accept c config other permit_late conn)

  abbrev pub CallFollows : Call → Type 0
  CallFollows x = Follows x.conn x.task

  begin_on-Follows :
      (d : PolicyDecision) (tcp : TcpStream) (peer : SocketAddr)
      → config.policy peer ≡ ok d
      → Follows (connected tcp peer) (begin_on d tcp peer)
  unfolding begin_on accept on_policy on_decision
  begin_on-Follows reject tcp peer e = inl (0, rw e)
  begin_on-Follows ignore tcp peer e = inl (0, rw e)
  begin_on-Follows require tcp peer e = λ permit. rw e
  begin_on-Follows use_header tcp peer e = λ permit. rw e

  begin_policy-Follows :
      (d : Outcome PolicyDecision ⊥) (tcp : TcpStream) (peer : SocketAddr)
      → config.policy peer ≡ d
      → Follows (connected tcp peer) (begin_policy d tcp peer)
  unfolding begin_policy accept on_policy
  begin_policy-Follows (ok d) tcp peer e = begin_on-Follows d tcp peer e
  begin_policy-Follows (err x) tcp peer e = absurd x
  begin_policy-Follows panic tcp peer e = inl (0, rw e)
  begin_policy-Follows stuck tcp peer e = inl (0, rw e)

  begin-Follows : (conn : Connection) → Follows conn (begin config conn)
  unfolding begin accept
  begin-Follows (connected tcp peer) = begin_policy-Follows (config.policy peer) tcp peer refl
  begin-Follows (accept_failed e) = inl (0, refl)

  abbrev Kept : SocketAddr → Bool → Round → Type 0
  Kept peer required (done o) = Unit {0}
  Kept peer required (more buf tcp) = (buf ≡ []) ⊎ (length buf < config.max_header_size)

  resume-Follows :
      (conn : Connection) (required : Bool) (peer : SocketAddr) (room : ℕ) (r : Round)
      → accept c config other (granted room) conn ≡ after config peer required c r
      → Kept peer required r
      → Follows conn (resume required peer r)
  resume-Follows conn required peer room (done o) e k = inl (room, sym e)
  resume-Follows conn required peer room (more buf tcp) e k = (room, e, k)

  set_deadline-after :
      (required : Bool) (tcp : TcpStream) (peer : SocketAddr) (room : ℕ)
      → (read_and_validate c config peer other (granted room) required tcp
          ≡ after config peer required c (set_deadline config room tcp))
        × Kept peer required (set_deadline config room tcp)
  unfolding read_and_validate acquire set_deadline
  set_deadline-after required tcp peer room = elim (Bool-cases (leb config.header_timeout room)) [
    | inl e ↦ rw e (refl, inl refl)
    | inr e ↦ rw e (refl, tt)
  ]

  acquire-Follows :
      (conn : Connection) (required : Bool) (tcp : TcpStream) (peer : SocketAddr) (room : ℕ)
      (r : Round)
      → Follows conn (waiting required tcp peer)
      → set_deadline config room tcp ≡ r
      → Follows conn (resume required peer r)
  acquire-Follows conn required tcp peer room r h q =
      let (same, kept) = set_deadline-after required tcp peer room in
      resume-Follows conn required peer room r
        (h (granted room) ∙ (same ∙ ap (after config peer required c) q))
        (subst (Kept peer required) q kept)

  late-Follows :
      (conn : Connection) (required : Bool) (tcp : TcpStream) (peer : SocketAddr)
      → Follows conn (waiting required tcp peer)
      → Follows conn (finished (err (AcceptError.header_timeout peer)))
  unfolding read_and_validate acquire
  late-Follows conn required tcp peer h = inr (sym (h permit_late))

  short-Kept :
      (peer : SocketAddr) (required : Bool) (r : Round)
      → IsShort config peer required c r
      → Kept peer required r
  short-Kept peer required (done o) h = tt
  short-Kept peer required (more buf tcp) h = inr h

  read-Follows :
      (conn : Connection) (required : Bool) (tcp : TcpStream) (peer : SocketAddr) (buf : List ℕ)
      (r : Round)
      → Follows conn (reading required tcp peer buf)
      → round config peer required c buf tcp ≡ r
      → Follows conn (resume required peer r)
  read-Follows conn required tcp peer buf r h q =
      resume-Follows conn required peer h.0 r
        (h.1
          ∙ (sym (after-round config peer required c buf tcp)
              ∙ ap (after config peer required c) q))
        (short-Kept peer required r
          (subst (IsShort config peer required c) q (round-IsShort config peer required c buf tcp)))

  -- One call changes, and the others stay.
  replaced :
      {calls : List Call} (front back : List Call) (x y : Call)
      → calls ≡ front ++ (x ∷ back)
      → (CallFollows x → CallFollows y)
      → All CallFollows calls
      → All CallFollows (front ++ (y ∷ back))
  replaced front back x y e f all =
      let (fs, (h, bs)) = All-split CallFollows front (x ∷ back) (subst (All CallFollows) e all) in
      All-append CallFollows front (y ∷ back) fs (f h, bs)

  removed :
      {calls : List Call} (front back : List Call) (x : Call)
      → calls ≡ front ++ (x ∷ back)
      → All CallFollows calls
      → All CallFollows (front ++ back)
  removed front back x e all =
      let (fs, (h, bs)) = All-split CallFollows front (x ∷ back) (subst (All CallFollows) e all) in
      All-append CallFollows front back fs bs

  Step-Follows :
      {s t : Running}
      → s.listener.config ≡ config
      → Step c s t
      → All CallFollows s.calls
      → All CallFollows t.calls
  Step-Follows {s} g (start conn e) h =
      subst (All CallFollows) (sym (ap (λ u. u.calls) e))
        (subst (λ k. Follows conn (begin k conn)) (sym g) (begin-Follows conn), h)
  Step-Follows g
        (Step.acquire front back conn required tcp peer free room r old first some_free q e) h =
      subst (All CallFollows) (sym (ap (λ u. u.calls) e)) (
        replaced front back (at conn (waiting required tcp peer)) (at conn (resume required peer r))
          old
          (λ k.
            acquire-Follows conn required tcp peer room r k
              (ap (λ z. set_deadline z room tcp) (sym g) ∙ q))
          h)
  Step-Follows g (time_out front back conn required tcp peer old e) h =
      subst (All CallFollows) (sym (ap (λ u. u.calls) e)) (
        replaced front back (at conn (waiting required tcp peer)) (at conn (finished _)) old
          (late-Follows conn required tcp peer) h)
  Step-Follows g (read front back conn required tcp peer buf r old q e) h =
      subst (All CallFollows) (sym (ap (λ u. u.calls) e)) (
        replaced front back (at conn (reading required tcp peer buf))
          (at conn (resume required peer r)) old
          (λ k.
            read-Follows conn required tcp peer buf r k
              (ap (λ z. round z peer required c buf tcp) (sym g) ∙ q))
          h)
  Step-Follows g (leave front back call old e) h =
      subst (All CallFollows) (sym (ap (λ u. u.calls) e)) (removed front back call old h)

  pub Reach-Follows :
      {l : ProxyProtocolListener} {s : Running}
      → l.config ≡ config
      → Reach c l s
      → All CallFollows s.calls
  Reach-Follows g fresh = tt
  Reach-Follows g (later r st) = Step-Follows (Reach-config c r ∙ g) st (Reach-Follows g r)

-- A call of `accept` that has come back, among any calls that run interleaved on a new listener, has
-- the answer of `accept` run by itself on its connection: with a permit at some moment of the clock, or
-- with the wait for one timed out. What the other calls do changes nothing else.
pub finished-accept :
    (c : Crc32c) (max_permits : ℕ) (inner : TcpListener) (config : ProxyProtocolConfig)
    (other : IoError) (l : ProxyProtocolListener) (s : Running) (front back : List Call)
    (conn : Connection) (o : Outcome ProxiedStream AcceptError)
    → new_listener max_permits inner config ≡ ok l
    → Reach c l s
    → s.calls ≡ front ++ (at conn (finished o) ∷ back)
    → ((room : ℕ) × (o ≡ accept c config other (granted room) conn))
      ⊎ (o ≡ accept c config other permit_late conn)
finished-accept c max_permits inner config other l s front back conn o h r e =
    let (g, _) = new_listener-lem max_permits inner config h in
    let all = subst (All (CallFollows c config other)) e (Reach-Follows c config other g r) in
    (All-split (CallFollows c config other) front (at conn (finished o) ∷ back) all).1.0

-- The bytes that a call has read and keeps
abbrev pub buffered : Task → ℕ
buffered (reading required tcp peer buf) = length buf
buffered (waiting required tcp peer) = 0
buffered (finished o) = 0

abbrev pub buffered_all : List Call → ℕ
buffered_all [] = 0
buffered_all (x ∷ xs) = buffered x.task + buffered_all xs

module _ (c : Crc32c) (config : ProxyProtocolConfig) (other : IoError)
    (some_room : 0 < config.max_header_size) where
  buffered-le :
      (conn : Connection) (k : Task)
      → Follows c config other conn k
      → buffered k ≤ held k * config.max_header_size
  buffered-le conn (waiting required tcp peer) h = omega arith
  buffered-le conn (finished o) h = omega arith
  buffered-le conn (reading required tcp peer buf) h = elim h.2 [
    | inl e ↦ omega (arith, ap length e)
    | inr lt ↦ omega arith
  ]

  buffered_all-le :
      (calls : List Call)
      → All (CallFollows c config other) calls
      → buffered_all calls ≤ handshakes calls * config.max_header_size
  buffered_all-le [] h = omega arith
  buffered_all-le (x ∷ xs) h = grind (arith, buffered-le x.conn x.task h.0, buffered_all-le xs h.1)

-- If a header may have a byte at all, then all handshakes under way on a new listener keep together
-- at most `max_pending_handshakes` times `max_header_size` bytes between their reads, whatever their
-- peers send and however long it takes.
pub buffered_bounded :
    (c : Crc32c) (max_permits : ℕ) (inner : TcpListener) (config : ProxyProtocolConfig)
    (l : ProxyProtocolListener) (s : Running)
    → 0 < config.max_header_size
    → new_listener max_permits inner config ≡ ok l
    → Reach c l s
    → buffered_all s.calls ≤ config.max_pending_handshakes * config.max_header_size
buffered_bounded c max_permits inner config l s room h r =
    let other : IoError = record { kind = other_kind 0; message = [] } in
    let (g, _) = new_listener-lem max_permits inner config h in
    let (_, few) = handshakes_bounded c max_permits inner config l s h r in
    let mine = buffered_all-le c config other room s.calls (Reach-Follows c config other g r) in
    grind arith
