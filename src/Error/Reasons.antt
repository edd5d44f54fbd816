-- ===== src/Error/Reasons.antt =====
-- What the errors of error.rs that `parse` gives say of the bytes.
use proxy_protocol_rs.Prelude.{
  ℕ, ◌+◌, ◌/◌, ◌≤◌, ◌<◌, ◌≡◌, ◌≢◌, ◌⊎◌, false, none, some, List, ◌∷◌, [], ◌++◌, length, index, ok,
  bit_and,
}
use proxy_protocol_rs.Std.IpText.{parse_u16, parse_ip}
use proxy_protocol_rs.Std.Net.{IpAddr}
use proxy_protocol_rs.Std.Utf8.{is_utf8}
use proxy_protocol_rs.Types.{AddressFamily}
use proxy_protocol_rs.Parse.V1.Splitting.{Joined}
use proxy_protocol_rs.Parse.V1.Grammar.{OfFamily, IsWord}
use proxy_protocol_rs.Error.{
  InvalidReason, unsupported_version, unknown_command, unknown_family, unknown_protocol,
  v1_too_long, v1_not_utf8, v1_invalid_format, unspec_with_proxy, v1_unknown_transport, invalid_ip,
  invalid_port, payload_overflow, malformed_tlv, ParseError, not_proxy_protocol, incomplete,
  invalid, crc_mismatch,
}

-- The byte at a place
abbrev pub ByteAt : List ℕ → ℕ → ℕ → Type 0
ByteAt buf i b = index {E = ParseError} buf i ≡ ok b

-- The parts of a line with six parts: the first one, the transport, two addresses and two ports
abbrev pub SixParts : List ℕ → (List ℕ → List ℕ → List ℕ → List ℕ → List ℕ → Type 0) → Type 0
SixParts line P =
    (x : List ℕ) × (word : List ℕ) × (a : List ℕ) × (b : List ℕ) × (p : List ℕ) × (q : List ℕ)
    × Joined (x ∷ word ∷ a ∷ b ∷ p ∷ q ∷ []) line
    × P word a b p q

-- The text is no address of the family.
abbrev pub IsNoAddress : AddressFamily → List ℕ → Type 0
IsNoAddress f t = (ip : IpAddr) → parse_ip t ≡ some ip → OfFamily f ip → ⊥

-- What is wrong with a line of the text format
abbrev pub IsLineReason : List ℕ → InvalidReason → Type 0
IsLineReason line v1_not_utf8 = is_utf8 line ≡ false
IsLineReason line v1_invalid_format = (ps : List (List ℕ)) → Joined ps line → length ps ≡ 6 → ⊥
IsLineReason line (v1_unknown_transport w) =
    SixParts line λ word a b p q. (w ≡ word) × ((f : AddressFamily) → IsWord w f → ⊥)
IsLineReason line (invalid_ip w) = SixParts line λ word a b p q.
    (f : AddressFamily) × IsWord word f
    × (((w ≡ a) × IsNoAddress f a) ⊎ ((w ≡ b) × IsNoAddress f b))
IsLineReason line (invalid_port w) =
    SixParts line λ word a b p q. ((w ≡ p) ⊎ (w ≡ q)) × (parse_u16 w ≡ none)
IsLineReason line _ = ⊥

-- The buffer begins with a line and its CR LF, and this is wrong with the line.
abbrev pub HasLine : List ℕ → InvalidReason → Type 0
HasLine buf r =
    (line : List ℕ) × (rest : List ℕ) × (buf ≡ line ++ (0x0d ∷ 0x0a ∷ rest)) × IsLineReason line r

-- No CR LF stands in the first 107 bytes.
abbrev pub IsOpen : List ℕ → Type 0
IsOpen buf = (line rest : List ℕ) → buf ≡ line ++ (0x0d ∷ 0x0a ∷ rest) → length line + 2 ≤ 107 → ⊥

abbrev pub IsReason : List ℕ → InvalidReason → Type 0
IsReason buf (unsupported_version v) = (b : ℕ) × ByteAt buf 12 b × (v ≡ b / 16) × (v < 16) × (v ≢ 2)
IsReason buf (unknown_command v) =
    (b : ℕ) × ByteAt buf 12 b × (v ≡ bit_and b 0x0f) × (2 ≤ v) × (v < 16)
IsReason buf (unknown_family v) = (b : ℕ) × ByteAt buf 13 b × (v ≡ b / 16) × (4 ≤ v) × (v < 16)
IsReason buf (unknown_protocol v) =
    (b : ℕ) × ByteAt buf 13 b × (v ≡ bit_and b 0x0f) × (3 ≤ v) × (v < 16)
IsReason buf v1_too_long = (107 ≤ length buf) × IsOpen buf
IsReason buf v1_not_utf8 = HasLine buf v1_not_utf8
IsReason buf v1_invalid_format = HasLine buf v1_invalid_format
IsReason buf unspec_with_proxy =
    (b : ℕ) × (d : ℕ) × ByteAt buf 12 b
    × ByteAt buf 13 d
    × (bit_and b 0x0f ≡ 1)
    × ((d / 16 ≡ 0) ⊎ (bit_and d 0x0f ≡ 0))
IsReason buf (v1_unknown_transport w) = HasLine buf (v1_unknown_transport w)
IsReason buf (invalid_ip w) = HasLine buf (invalid_ip w)
IsReason buf (invalid_port w) = HasLine buf (invalid_port w)
IsReason buf (payload_overflow len buf_len) = (buf_len < len) × (16 + buf_len ≤ length buf)
IsReason buf (malformed_tlv offset) = 16 + offset < length buf

-- The longest header has 16 bytes and 65535 behind them.
abbrev pub IsExplained : List ℕ → ParseError → Type 0
IsExplained buf not_proxy_protocol = 0 < length buf
IsExplained buf incomplete = length buf < 65551
IsExplained buf (invalid r) = IsReason buf r
IsExplained buf (crc_mismatch expected actual) = expected ≢ actual
