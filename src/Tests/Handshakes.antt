-- ===== src/Tests/Handshakes.antt =====
-- Concrete inputs on which the theorems of the handshakes under way in listener.rs are used.
use proxy_protocol_rs.Prelude.{ℕ, ◌+◌, ◌*◌, ◌≤◌, ◌≡◌, ◌⊎◌, refl, true, [], ◌∷◌, ok, err, arith}
use proxy_protocol_rs.Error.{header_timeout}
use proxy_protocol_rs.Config.{ProxyProtocolConfig, config_default}
use proxy_protocol_rs.Incoming.{closed, late, chunk, TcpListener}
use proxy_protocol_rs.Parse.Header.{parse, parse_text}
use proxy_protocol_rs.Listener.{Connection, connected, granted, permit_late, accept}
use proxy_protocol_rs.Listener.Handshakes.{
  ProxyProtocolListener, new_listener, waiting, reading, finished, Call, at, begin, begin_policy,
  set_deadline, more, round, round_parse, round_error, Running, start, acquire, time_out, read,
  Reach, fresh, later,
}
use proxy_protocol_rs.Listener.Handshakes.Permits.{handshakes, handshakes_bounded}
use proxy_protocol_rs.Listener.Handshakes.Answers.{finished-accept, buffered_all, buffered_bounded}
use proxy_protocol_rs.Tests.{sum_crc}
use proxy_protocol_rs.Tests.Listening.{peer, closed_error}

abbrev one_at_once : ProxyProtocolConfig
one_at_once = record config_default { max_pending_handshakes = 1 }

abbrev socket : TcpListener
socket = record { bound_to = ok peer }

abbrev listener : ProxyProtocolListener
listener = record { inner = socket; config = one_at_once; handshake_semaphore = 1 }

new_one : new_listener 1000 socket one_at_once ≡ ok listener
unfolding new_listener
new_one = refl

-- A peer that sends "P" and then nothing, and one that closes
abbrev slow : Connection
slow = connected (chunk (0x50 ∷ []) (late closed)) peer

abbrev empty : Connection
empty = connected closed peer

abbrev slow_reads : Call
slow_reads = at slow (reading true (late closed) peer (0x50 ∷ []))

abbrev empty_waits : Call
empty_waits = at empty (waiting true closed peer)

abbrev busy : Running
busy = record {
  listener = record listener { handshake_semaphore = 0 };
  calls = empty_waits ∷ slow_reads ∷ [];
}

one_round :
    round one_at_once peer true sum_crc [] (chunk (0x50 ∷ []) (late closed))
    ≡ more (0x50 ∷ []) (late closed)
unfolding round round_parse round_error parse parse_text
one_round = refl

-- The slow peer's call takes the only permit and reads a byte; then the other one comes.
Reach-busy : Reach sum_crc listener busy
unfolding begin begin_policy set_deadline
Reach-busy =
    later
      (later
        (later (later fresh (start slow refl)) (
          acquire [] [] slow true (chunk (0x50 ∷ []) (late closed)) peer 0 5000000000
            (more [] (chunk (0x50 ∷ []) (late closed))) refl tt refl refl refl))
        (read [] [] slow true (chunk (0x50 ∷ []) (late closed)) peer []
          (more (0x50 ∷ []) (late closed)) refl one_round refl))
      (start empty refl)

abbrev gave_up : Running
gave_up = record {
  listener = record listener { handshake_semaphore = 0 };
  calls = at empty (finished (err (header_timeout peer))) ∷ slow_reads ∷ [];
}

Reach-gave_up : Reach sum_crc listener gave_up
Reach-gave_up = later Reach-busy (time_out [] (slow_reads ∷ []) empty true closed peer refl refl)

handshakes_bounded_example : (0 + handshakes busy.calls ≡ 1) × (handshakes busy.calls ≤ 1)
handshakes_bounded_example =
    handshakes_bounded sum_crc 1000 socket one_at_once listener busy new_one Reach-busy

finished-accept_example :
    ((room : ℕ) × (err (header_timeout peer)
        ≡ accept sum_crc one_at_once closed_error (granted room) empty))
    ⊎ (err (header_timeout peer) ≡ accept sum_crc one_at_once closed_error permit_late empty)
finished-accept_example =
    finished-accept sum_crc 1000 socket one_at_once closed_error listener gave_up []
      (slow_reads ∷ []) empty (err (header_timeout peer)) new_one Reach-gave_up refl

buffered_bounded_example : buffered_all busy.calls ≤ 1 * 4096
buffered_bounded_example =
    buffered_bounded sum_crc 1000 socket one_at_once listener busy (omega arith) new_one Reach-busy
