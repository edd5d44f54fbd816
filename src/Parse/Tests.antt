-- ===== src/Parse/Tests.antt =====
-- Runs of the parsers on concrete text.
use proxy_protocol_rs.Prelude.{ℕ, ◌≡◌, refl, List, [], ◌∷◌, some}
use proxy_protocol_rs.Std.IpText.{parse_ip}
use proxy_protocol_rs.Std.Net.{v4}
use Prim.Native.Char.{code}
use Prim.Native.String.{String}

abbrev codes : String → List ℕ
codes String.[] = []
codes (String.◌∷◌ c s) = code c ∷ codes s

parse_ipv4 : parse_ip (codes "192.168.0.1") ≡ some (v4 (record { octets = 192 ∷ 168 ∷ 0 ∷ 1 ∷ [] }))
unfolding parse_ip
parse_ipv4 = refl
