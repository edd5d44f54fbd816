-- ===== src/Parse/V1.antt =====
-- parse/v1.rs: the text header. Its `str` operations work on the bytes of the line.
pub mod Total
pub mod Fields
pub mod Line
pub mod Splitting
pub mod Grammar
pub mod LineErrors
pub mod Errors
use proxy_protocol_rs.Prelude.{
  ℕ, zero, suc, ◌+◌, min, Bool, true, false, not, ◌==◌, ltb, ◌&&◌, ◌||◌, if◌then◌else◌, Option,
  none, some, map_option, List, [], ◌∷◌, length, drop, slice, bytes_eq, starts_with, Outcome, ok,
  err, ◌>>=◌, ◌>>◌, fail_if, ok_or,
}
use proxy_protocol_rs.Std.Net.{IpAddr, v4, v6, socket_addr}
use proxy_protocol_rs.Std.Utf8.{is_utf8}
use proxy_protocol_rs.Std.IpText.{parse_u16, parse_ip}
use proxy_protocol_rs.Types.{
  inet, Version, proxy, AddressFamily, inet4, inet6, stream, tlvs_default, ProxyInfo,
}
use proxy_protocol_rs.Error.{
  ParseError, incomplete, invalid, v1_too_long, v1_not_utf8, v1_invalid_format,
  v1_unknown_transport, invalid_ip, invalid_port,
}

abbrev pub v1_max_len : ℕ
v1_max_len = 107

-- `buf.windows(2).position(|w| w == b"\r\n")`
unfoldable pub find_crlf : List ℕ → Option ℕ
find_crlf [] = none
find_crlf (a ∷ []) = none
find_crlf (a ∷ b ∷ bs) =
    if a == 0x0d && b == 0x0a then some 0 else map_option suc (find_crlf (b ∷ bs))

-- The text before the first space, and the text after it if there is a space.
unfoldable pub split_space : List ℕ → List ℕ × Option (List ℕ)
split_space [] = ([], none)
split_space (b ∷ bs) =
    if b == b' ' then ([], some bs) else (b ∷ (split_space bs).0, (split_space bs).1)

-- `line.splitn(n, ' ')`, at most `n` parts
unfoldable pub splitn : ℕ → List ℕ → List (List ℕ)
unfolding split_space
splitn zero bs = []
splitn (suc zero) bs = bs ∷ []
splitn (suc (suc n)) bs = elim (split_space bs).1 [
  | none ↦ bs ∷ []
  | some rest ↦ (split_space bs).0 ∷ splitn (suc n) rest
]

-- `parts.next()`
abbrev pub next : List (List ℕ) → Option (List ℕ)
next [] = none
next (p ∷ ps) = some p

abbrev pub rest_of : List (List ℕ) → List (List ℕ)
rest_of [] = []
rest_of (p ∷ ps) = ps

abbrev pub is_some {ℓ} : {A : Type ℓ} → Option A → Bool
is_some none = false
is_some (some a) = true

abbrev pub bad_format : ParseError
bad_format = invalid v1_invalid_format

-- "PROXY UNKNOWN"
abbrev pub proxy_unknown : List ℕ
proxy_unknown =
    b'P' ∷ b'R' ∷ b'O' ∷ b'X' ∷ b'Y' ∷ b' ' ∷ b'U' ∷ b'N' ∷ b'K' ∷ b'N' ∷ b'O' ∷ b'W' ∷ b'N' ∷ []

abbrev pub tcp4 : List ℕ
tcp4 = b'T' ∷ b'C' ∷ b'P' ∷ b'4' ∷ []

abbrev pub tcp6 : List ℕ
tcp6 = b'T' ∷ b'C' ∷ b'P' ∷ b'6' ∷ []

-- The line begins with "PROXY UNKNOWN", and ends there or goes on with a space.
unfoldable pub is_unknown : List ℕ → Bool
is_unknown line =
    let rest = drop (length proxy_unknown) line in
    starts_with line proxy_unknown && (bytes_eq rest [] || starts_with rest (b' ' ∷ []))

abbrev pub unknown_info : ProxyInfo
unknown_info = record {
  version = Version.v1;
  command = proxy;
  transport = none;
  source = none;
  destination = none;
  tlvs = tlvs_default;
}

unfoldable pub family_of_str : List ℕ → Outcome AddressFamily ParseError
family_of_str transport_str =
    if bytes_eq transport_str tcp4
    then ok inet4
    else if bytes_eq transport_str tcp6
    then ok inet6
    else err (invalid (v1_unknown_transport transport_str))

-- `match (&family, &ip)`
abbrev pub family_matches : AddressFamily → IpAddr → Bool
family_matches inet4 (v4 a) = true
family_matches inet6 (v6 a) = true
family_matches _ _ = false

-- The fields behind the transport, once the line is split.
unfoldable pub parse_fields :
    AddressFamily → List ℕ → List ℕ → List ℕ → List ℕ → Outcome ProxyInfo ParseError
parse_fields family src_ip_str dst_ip_str src_port_str dst_port_str = do
  src_ip ← ok_or (parse_ip src_ip_str) (invalid (invalid_ip src_ip_str))
  dst_ip ← ok_or (parse_ip dst_ip_str) (invalid (invalid_ip dst_ip_str))
  fail_if (not (family_matches family src_ip)) (invalid (invalid_ip src_ip_str))
  fail_if (not (family_matches family dst_ip)) (invalid (invalid_ip dst_ip_str))
  src_port ← ok_or (parse_u16 src_port_str) (invalid (invalid_port src_port_str))
  dst_port ← ok_or (parse_u16 dst_port_str) (invalid (invalid_port dst_port_str))
  ok (record {
    version = Version.v1;
    command = proxy;
    transport = some (record { family = family; protocol = stream });
    source = some (inet (socket_addr src_ip src_port));
    destination = some (inet (socket_addr dst_ip dst_port));
    tlvs = tlvs_default;
  })

-- The parts of the line; the first one is "PROXY".
unfoldable pub parse_parts : List (List ℕ) → Outcome ProxyInfo ParseError
unfolding family_of_str
parse_parts parts = do
  let parts1 = rest_of parts
  transport_str ← ok_or (next parts1) bad_format
  let parts2 = rest_of parts1
  src_ip_str ← ok_or (next parts2) bad_format
  let parts3 = rest_of parts2
  dst_ip_str ← ok_or (next parts3) bad_format
  let parts4 = rest_of parts3
  src_port_str ← ok_or (next parts4) bad_format
  let parts5 = rest_of parts4
  dst_port_str ← ok_or (next parts5) bad_format
  fail_if (is_some (next (rest_of parts5))) bad_format
  family ← family_of_str transport_str
  parse_fields family src_ip_str dst_ip_str src_port_str dst_port_str

unfoldable pub parse_line : List ℕ → Outcome ProxyInfo ParseError
unfolding is_unknown splitn
parse_line line = if is_unknown line then ok unknown_info else parse_parts (splitn 7 line)

-- What `ok_or` names where no line end is found.
unfoldable pub no_line_end : List ℕ → ParseError
no_line_end buf = if ltb (length buf) v1_max_len then incomplete else invalid v1_too_long

unfoldable pub parse_v1 : List ℕ → Outcome (ProxyInfo × ℕ) ParseError
unfolding find_crlf no_line_end
parse_v1 buf = do
  searched ← slice buf 0 (min (length buf) v1_max_len)
  line_end ← ok_or (find_crlf searched) (no_line_end buf)
  line ← slice buf 0 line_end
  fail_if (not (is_utf8 line)) (invalid v1_not_utf8)
  info ← parse_line line
  ok (info, line_end + 2)
