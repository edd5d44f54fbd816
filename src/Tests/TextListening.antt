-- ===== src/Tests/TextListening.antt =====
-- Headers in the text format: their lines, and one sent to `accept` of listener.rs.
use proxy_protocol_rs.Prelude.{
  ℕ, ◌↔◌, ◌≡◌, ◌↔◌, refl, List, [], ◌∷◌, ◌++◌, take, drop, some, ok, true, arith,
}
use proxy_protocol_rs.Std.Net.{Ipv6Addr, v6, socket_addr}
use proxy_protocol_rs.Std.IpDisplay.{
  show_ip, show_ipv6, show_groups, longest_zeros, show_hex, show_dec, show_loop,
}
use proxy_protocol_rs.Types.{v1, inet6}
use proxy_protocol_rs.Parse.V1.{parse_line, unknown_info}
use proxy_protocol_rs.Parse.V1.Grammar.{unknown_word, IsTextLine, parse_line-IsTextLine}
use proxy_protocol_rs.Parse.V1.Fields.{fields_info}
use proxy_protocol_rs.Builder.Calls.{HeaderBuilder, proxy_header, v1_proxy}
use proxy_protocol_rs.Builder.Header.{build_v1, build}
use proxy_protocol_rs.Builder.Header.TextReachable.{TextBuilt}
use proxy_protocol_rs.Config.{config_default}
use proxy_protocol_rs.Incoming.{TcpStream, closed, chunk}
use proxy_protocol_rs.Listener.{connected, accept}
use proxy_protocol_rs.Listener.Decision.{seen}
use proxy_protocol_rs.Listener.EndToEnd.{accept-build_v1}
use proxy_protocol_rs.Tests.{sum_crc}
use proxy_protocol_rs.Tests.Building.{client, client-IsSocket}
use proxy_protocol_rs.Tests.Listening.{clock, peer, closed_error}

-- ::1
abbrev loopback : Ipv6Addr
loopback = record { octets = 0 ∷ 0 ∷ 0 ∷ 0 ∷ 0 ∷ 0 ∷ 0 ∷ 0 ∷ 0 ∷ 0 ∷ 0 ∷ 0 ∷ 0 ∷ 0 ∷ 0 ∷ 1 ∷ [] }

abbrev local_builder : HeaderBuilder
local_builder = proxy_header v1 (socket_addr (v6 client) 56324) (socket_addr (v6 loopback) 443)

-- "PROXY TCP6 2001:db8::1 ::1 56324 443", and its end
abbrev local_line : List ℕ
local_line =
    80 ∷ 82 ∷ 79 ∷ 88 ∷ 89 ∷ 32 ∷ 84 ∷ 67 ∷ 80 ∷ 54 ∷ 32 ∷ 50 ∷ 48 ∷ 48 ∷ 49 ∷ 58 ∷ 100 ∷ 98 ∷ 56
    ∷ 58 ∷ 58 ∷ 49 ∷ 32 ∷ 58 ∷ 58 ∷ 49 ∷ 32 ∷ 53 ∷ 54 ∷ 51 ∷ 50 ∷ 52 ∷ 32 ∷ 52 ∷ 52 ∷ 51 ∷ 13 ∷ 10
    ∷ []

local_built : build sum_crc local_builder ≡ ok local_line
unfolding build build_v1 show_ip show_ipv6 show_groups longest_zeros show_hex show_dec show_loop
local_built = refl

local-TextBuilt : TextBuilt local_builder
unfolding v1_proxy
local-TextBuilt =
    TextBuilt.text_header (socket_addr (v6 client) 56324) (socket_addr (v6 loopback) 443)
      client-IsSocket ((refl, omega arith), omega arith) refl

-- The line and two bytes, cut inside the line
abbrev cut_line : TcpStream
cut_line = chunk (take 9 local_line) (chunk (drop 9 local_line ++ (7 ∷ 8 ∷ [])) closed)

accept-build_v1_example :
    seen (accept sum_crc config_default closed_error clock (connected cut_line peer))
    ≡ ok (some (fields_info inet6 (v6 client) 56324 (v6 loopback) 443), peer, 7 ∷ 8 ∷ [])
accept-build_v1_example =
    accept-build_v1 sum_crc config_default closed_error 100000000000 cut_line peer true
      local_builder local_line (7 ∷ 8 ∷ []) local-TextBuilt local_built refl (λ e. cc) refl
      (omega arith) refl (omega arith) tt

parse_line-IsTextLine_example :
    (parse_line (80 ∷ 82 ∷ 79 ∷ 88 ∷ 89 ∷ 32 ∷ (unknown_word ++ (32 ∷ 120 ∷ []))) ≡ ok unknown_info)
    ↔ IsTextLine (unknown_word ++ (32 ∷ 120 ∷ [])) unknown_info
parse_line-IsTextLine_example = parse_line-IsTextLine (unknown_word ++ (32 ∷ 120 ∷ [])) unknown_info
