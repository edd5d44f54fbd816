-- ===== src/Listener/Handshakes/Permits.antt =====
-- The permits of the handshake semaphore of listener.rs.
use proxy_protocol_rs.Prelude.{
  ℕ, ◌+◌, ◌≤◌, ◌≡◌, refl, sym, ap, ◌∙◌, leb, Bool, List, [], ◌∷◌, ◌++◌, Outcome, err, panic, stuck,
  ok, ok-injective, >>-eq-ok, assert, arith,
}
use proxy_protocol_rs.Std.Net.{SocketAddr}
use proxy_protocol_rs.Crc.{Crc32c}
use proxy_protocol_rs.Policy.{PolicyDecision, require, use_header, ignore, reject}
use proxy_protocol_rs.Config.{ProxyProtocolConfig}
use proxy_protocol_rs.Incoming.{TcpStream, TcpListener}
use proxy_protocol_rs.Listener.{Connection, connected, accept_failed}
use proxy_protocol_rs.Listener.Handshakes.{
  ProxyProtocolListener, new_listener, waiting, reading, finished, Call, at, begin_on, begin_policy,
  begin, Round, done, more, resume, given_back, held, Running, Step, start, acquire, time_out, read,
  leave, Reach, fresh, later,
}

-- The handshakes under way: each is a call that reads, and holds a permit.
abbrev pub handshakes : List Call → ℕ
handshakes [] = 0
handshakes (x ∷ xs) = held x.task + handshakes xs

handshakes-append : (xs ys : List Call) → handshakes (xs ++ ys) ≡ handshakes xs + handshakes ys
handshakes-append [] ys = omega arith
handshakes-append (x ∷ xs) ys = omega (arith, handshakes-append xs ys)

-- What a list of calls holds, with one of them picked out
handshakes-at :
    {calls : List Call} (front back : List Call) (x : Call)
    → calls ≡ front ++ (x ∷ back)
    → handshakes calls ≡ handshakes front + (held x.task + handshakes back)
handshakes-at front back x e = ap handshakes e ∙ handshakes-append front (x ∷ back)

begin_on-held :
    (d : PolicyDecision) (tcp : TcpStream) (peer : SocketAddr) → held (begin_on d tcp peer) ≡ 0
unfolding begin_on
begin_on-held reject tcp peer = refl
begin_on-held ignore tcp peer = refl
begin_on-held require tcp peer = refl
begin_on-held use_header tcp peer = refl

begin_policy-held :
    (d : Outcome PolicyDecision ⊥) (tcp : TcpStream) (peer : SocketAddr)
    → held (begin_policy d tcp peer) ≡ 0
unfolding begin_policy
begin_policy-held (ok d) tcp peer = begin_on-held d tcp peer
begin_policy-held (err e) tcp peer = absurd e
begin_policy-held panic tcp peer = refl
begin_policy-held stuck tcp peer = refl

begin-held : (config : ProxyProtocolConfig) (conn : Connection) → held (begin config conn) ≡ 0
unfolding begin
begin-held config (connected tcp peer) = begin_policy-held (config.policy peer) tcp peer
begin-held config (accept_failed e) = refl

resume-held :
    (required : Bool) (peer : SocketAddr) (r : Round)
    → given_back r + held (resume required peer r) ≡ 1
resume-held required peer (done o) = refl
resume-held required peer (more buf tcp) = refl

-- All permits, free and held
abbrev permits : Running → ℕ
permits s = s.listener.handshake_semaphore + handshakes s.calls

module _ (c : Crc32c) where
  Step-permits : {s t : Running} → Step c s t → permits t ≡ permits s
  Step-permits {s} (start conn e) = omega (arith, ap permits e, begin-held s.listener.config conn)
  Step-permits (acquire front back conn required tcp peer free room r old first some_free q e) =
      omega (
        arith,
        ap permits e,
        handshakes-at front back (at conn (waiting required tcp peer)) old,
        handshakes-append front (at conn (resume required peer r) ∷ back),
        resume-held required peer r,
      )
  Step-permits (time_out front back conn required tcp peer old e) = omega (
    arith,
    ap permits e,
    handshakes-at front back (at conn (waiting required tcp peer)) old,
    handshakes-append front (at conn (finished _) ∷ back),
  )
  Step-permits (read front back conn required tcp peer buf r old q e) = omega (
    arith,
    ap permits e,
    handshakes-at front back (at conn (reading required tcp peer buf)) old,
    handshakes-append front (at conn (resume required peer r) ∷ back),
    resume-held required peer r,
  )
  Step-permits (leave front back call old e) =
      omega (arith, ap permits e, handshakes-at front back call old, handshakes-append front back)

  Step-config : {s t : Running} → Step c s t → t.listener.config ≡ s.listener.config
  Step-config (start conn e) = ap (λ u. u.listener.config) e
  Step-config (acquire front back conn required tcp peer free room r old first some_free q e) =
      ap (λ u. u.listener.config) e
  Step-config (time_out front back conn required tcp peer old e) = ap (λ u. u.listener.config) e
  Step-config (read front back conn required tcp peer buf r old q e) = ap (λ u. u.listener.config) e
  Step-config (leave front back call old e) = ap (λ u. u.listener.config) e

  pub Reach-config :
      {l : ProxyProtocolListener} {s : Running} → Reach c l s → s.listener.config ≡ l.config
  Reach-config fresh = refl
  Reach-config (later r st) = Step-config st ∙ Reach-config r

  pub Reach-permits :
      {l : ProxyProtocolListener} {s : Running} → Reach c l s → permits s ≡ l.handshake_semaphore
  Reach-permits fresh = omega arith
  Reach-permits (later r st) = Step-permits st ∙ Reach-permits r

pub new_listener-lem :
    (max_permits : ℕ) (inner : TcpListener) (config : ProxyProtocolConfig)
    {l : ProxyProtocolListener}
    → new_listener max_permits inner config ≡ ok l
    → (l.config ≡ config) × (l.handshake_semaphore ≡ config.max_pending_handshakes)
unfolding new_listener
new_listener-lem max_permits inner config {l} h =
    let (_, e) = >>-eq-ok (assert (leb config.max_pending_handshakes max_permits)) _ h in
    (
      ap (λ (x : ProxyProtocolListener). x.config) (sym (ok-injective e)),
      ap (λ (x : ProxyProtocolListener). x.handshake_semaphore) (sym (ok-injective e)),
    )

-- Whatever calls of `accept` run on a new listener, and in whatever order they wait, read, time out,
-- return or are dropped: the free permits and the handshakes under way are together always
-- `max_pending_handshakes`. So no more handshakes than that are ever under way at once, and no permit
-- is ever lost.
pub handshakes_bounded :
    (c : Crc32c) (max_permits : ℕ) (inner : TcpListener) (config : ProxyProtocolConfig)
    (l : ProxyProtocolListener) (s : Running)
    → new_listener max_permits inner config ≡ ok l
    → Reach c l s
    → (s.listener.handshake_semaphore + handshakes s.calls ≡ config.max_pending_handshakes)
      × (handshakes s.calls ≤ config.max_pending_handshakes)
handshakes_bounded c max_permits inner config l s h r =
    let (_, e) = new_listener-lem max_permits inner config h in
    (Reach-permits c r ∙ e, omega (arith, Reach-permits c r))
