-- ===== src/Tests/Listening.antt =====
-- Concrete inputs on which the theorems of listener.rs, stream.rs, policy.rs and config.rs are used.
use proxy_protocol_rs.Prelude.{
  ℕ, ◌≤◌, ◌<◌, ◌≡◌, ◌≢◌, ◌↔◌, ◌⊎◌, refl, true, List, [], ◌∷◌, ◌++◌, length, take, drop, none, some,
  ok, err, Returns, arith,
}
use proxy_protocol_rs.Std.Io.{IoError, other_kind, connection_reset}
use proxy_protocol_rs.Std.Net.{v4, SocketAddr, socket_addr}
use proxy_protocol_rs.Error.{incomplete, io}
use proxy_protocol_rs.Axum.{handle_accept_error}
use proxy_protocol_rs.Axum.Logging.{error, logged, level_of, IsOfConnection, IoOf, logged-sleep}
use proxy_protocol_rs.Parse.Header.{parse, parse_binary}
use proxy_protocol_rs.Parse.Tlv.View.{View}
use proxy_protocol_rs.Parse.Tlv.{parse_tlvs, parse_tlvs_loop, read_tlv, set_tlv_field, set_crc32c}
use proxy_protocol_rs.Parse.V2.{
  parse_v2, parse_v2_payload, command_of, addresses_of, parse_v2_addresses, family_of, protocol_of,
  parse_inet, tlvs_of, tlvs_of_command, check_crc, compute_crc32c, find_crc_loop, crc_without,
}
use proxy_protocol_rs.Config.{config_default, builder_default, build_config, set_max_header_size}
use proxy_protocol_rs.Config.Validation.{IsConfig, config_of, build_config-IsConfig}
use proxy_protocol_rs.Incoming.{
  ReadEvent, TcpStream, closed, late, chunk, bytes_of, wrote, TcpWrites,
}
use proxy_protocol_rs.Stream.Polling.{Poll, poll_all, Keeps, poll_all-Keeps}
use proxy_protocol_rs.Stream.{ProxiedStream, new_stream, poll_read}
use proxy_protocol_rs.Stream.Reading.{IsStream, unread, event_bytes, poll_read-unread}
use proxy_protocol_rs.Listener.{
  Permit, granted, connected, accept, on_policy, on_decision, read_and_validate, acquire, read_loop,
  on_parse, on_error, take_header, check_version, run_validator,
}
use proxy_protocol_rs.Listener.Total.{accept-Returns}
use proxy_protocol_rs.Listener.Decision.{seen, decide, accept-decide}
use proxy_protocol_rs.Listener.Delivery.{Accepted, accept-Accepted}
use proxy_protocol_rs.Tests.{sum_crc, server, header, info, header_complete}

abbrev pub peer : SocketAddr
peer = socket_addr (v4 server) 40000

abbrev pub closed_error : IoError
closed_error = record { kind = other_kind 0; message = [] }

-- A permit in time, and a clock that can count for a hundred seconds more
abbrev pub clock : Permit
clock = granted 100000000000

-- The header and two bytes, cut inside the header, and then silence
abbrev pub cut : TcpStream
cut = chunk (take 20 header) (chunk (drop 20 header ++ (7 ∷ 8 ∷ [])) (late closed))

abbrev pub accepted : ProxiedStream
accepted = new_stream (late closed) (7 ∷ 8 ∷ []) (some info) peer

cut_bytes : bytes_of cut ≡ header ++ (7 ∷ 8 ∷ [])
cut_bytes = refl

enough : parse sum_crc (take 44 (bytes_of cut)) ≢ err incomplete
enough h = header_complete h

accept-decide_example :
    seen (accept sum_crc config_default closed_error clock (connected cut peer))
    ≡ decide sum_crc config_default peer true (bytes_of cut)
accept-decide_example =
    accept-decide sum_crc config_default closed_error 100000000000 cut peer true 44 refl
      (omega arith) tt (omega arith) enough

accept-Returns_example :
    Returns (accept sum_crc config_default closed_error clock (connected cut peer))
accept-Returns_example =
    accept-Returns sum_crc config_default closed_error clock (connected cut peer) (λ p. tt) tt
      (omega arith)

pub accept-cut : accept sum_crc config_default closed_error clock (connected cut peer) ≡ ok accepted
unfolding accept on_policy on_decision read_and_validate acquire read_loop on_parse on_error
    take_header check_version run_validator parse parse_binary parse_v2 parse_v2_payload command_of
    addresses_of parse_v2_addresses family_of protocol_of parse_inet tlvs_of tlvs_of_command
    check_crc compute_crc32c find_crc_loop crc_without parse_tlvs parse_tlvs_loop read_tlv
    set_tlv_field set_crc32c
accept-cut = refl

accept-Accepted_example :
    Accepted sum_crc config_default peer (bytes_of cut) accepted × (peer ≡ peer)
accept-Accepted_example =
    accept-Accepted sum_crc config_default closed_error clock cut peer accepted accept-cut

poll_read-unread_example :
    (event : ReadEvent) × (s' : ProxiedStream) × (poll_read 1 accepted ≡ ok (event, s'))
    × IsStream s'
    × (event_bytes event ++ unread s' ≡ 7 ∷ 8 ∷ [])
    × (length (event_bytes event) ≤ 1)
    × (0 < 2 → s'.inner ≡ late closed)
    × (s'.proxy_info ≡ some info)
    × (s'.peer_addr ≡ peer)
poll_read-unread_example = poll_read-unread 1 accepted (omega arith)

build_config-IsConfig_example :
    (build_config (set_max_header_size 536 builder_default)
      ≡ ok (config_of (set_max_header_size 536 builder_default)))
    ↔ ((config_of (set_max_header_size 536 builder_default)
          ≡ config_of (set_max_header_size 536 builder_default))
        × IsConfig (config_of (set_max_header_size 536 builder_default)))
build_config-IsConfig_example =
    build_config-IsConfig (set_max_header_size 536 builder_default)
      (config_of (set_max_header_size 536 builder_default))

-- A connection whose writes all succeed
abbrev writes : TcpWrites
writes = record {
  inner_write = λ buf s. (wrote (length buf), s);
  inner_flush = λ s. (wrote 0, s);
  inner_shutdown = λ s. (wrote 0, s);
  write_law = λ buf s. refl;
  flush_law = λ s. refl;
  shutdown_law = λ s. refl;
}

abbrev polls : List Poll
polls = Poll.read 1 ∷ Poll.write (1 ∷ 2 ∷ []) ∷ Poll.flush ∷ Poll.read 5 ∷ Poll.shutdown ∷ []

poll_all-Keeps_example :
    (bytes : List ℕ) × (s' : ProxiedStream) × (poll_all writes polls accepted ≡ ok (bytes, s'))
    × Keeps accepted bytes s'
poll_all-Keeps_example = poll_all-Keeps writes polls accepted (omega arith)

-- A connection that was reset
abbrev reset : IoError
reset = record { kind = connection_reset; message = [] }

logged-sleep_example :
    ((handle_accept_error (io reset) ≡ 1) ↔ IoOf (λ x. IsOfConnection x → ⊥) (io reset))
    × ((level_of (logged (io reset)) ≡ some error) ↔ IoOf (λ x. IsOfConnection x → ⊥) (io reset))
    × ((logged (io reset) ≡ none) ↔ IoOf IsOfConnection (io reset))
    × ((handle_accept_error (io reset) ≡ 0) ⊎ (handle_accept_error (io reset) ≡ 1))
logged-sleep_example = logged-sleep (io reset)
