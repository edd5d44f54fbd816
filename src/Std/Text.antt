-- ===== src/Std/Text.antt =====
-- Text literals as their bytes, and `Display` for numbers in hexadecimal and for socket addresses.
use Prim.Native.Char.{code}
use Prim.Native.String.{String}
use proxy_protocol_rs.Prelude.{ℕ, ◌-◌, ◌==◌, if◌then◌else◌, List, [], ◌∷◌, ◌++◌, length, replicate}
use proxy_protocol_rs.Std.Net.{SocketAddr, sock4, sock6}
use proxy_protocol_rs.Std.IpDisplay.{show_dec, show_hex, show_ipv4, show_ipv6}

-- The bytes of a text, if it is ASCII
abbrev pub text : String → List ℕ
text String.[] = []
text (String.◌∷◌ c s) = code c ∷ text s

-- `{:#x}`
unfoldable pub show_alternate_hex : ℕ → List ℕ
unfolding show_hex
show_alternate_hex n = text "0x" ++ show_hex n

-- `{:#010x}`: zeroes between the prefix and the digits, up to ten bytes in all
unfoldable pub show_padded_hex : ℕ → List ℕ
unfolding show_hex
show_padded_hex n = text "0x" ++ (replicate (8 - length (show_hex n)) b'0' ++ show_hex n)

-- The scope of an IPv6 address, where it has one
abbrev pub show_scope : ℕ → List ℕ
show_scope scope_id = if scope_id == 0 then [] else b'%' ∷ show_dec scope_id

-- `Display` for `SocketAddr`
unfoldable pub show_socket : SocketAddr → List ℕ
unfolding show_dec show_ipv4 show_ipv6
show_socket (sock4 s) = show_ipv4 s.addr ++ (b':' ∷ show_dec s.port4)
show_socket (sock6 s) =
    b'[' ∷ (show_ipv6 s.addr6 ++ (show_scope s.scope_id ++ (b']' ∷ b':' ∷ show_dec s.port6)))
