-- ===== src/Tests.antt =====
-- Concrete inputs on which the theorems of parse/ and builder.rs are used.
mod Listening
mod Building
mod Trusting
mod Vendors
mod Writing
mod TextListening
mod Handshakes
use proxy_protocol_rs.Prelude.{
  ℕ, ◌+◌, ◌%◌, ◌^◌, ◌≤◌, ◌<◌, ◌≡◌, ◌≢◌, refl, Bool, true, List, [], ◌∷◌, ◌++◌, take, drop, ltb,
  ◌&&◌, All, IsByte, some, ok, err, arith, Returns,
}
use proxy_protocol_rs.Std.Net.{Ipv4Addr, v4, IsIpv4, socket_addr}
use proxy_protocol_rs.Types.{inet, Version, proxy, inet4, stream, Tlvs, tlvs_default, ProxyInfo}
use proxy_protocol_rs.Crc.{Crc32c}
use proxy_protocol_rs.Parse.Wire.{Entry, wire, Fits}
use proxy_protocol_rs.Builder.Calls.{HeaderBuilder}
use proxy_protocol_rs.Builder.Header.RoundTrip.{info_with}
use proxy_protocol_rs.Builder.Header.Endpoints.{Endpoints}
use proxy_protocol_rs.Parse.Tlv.{parse_tlvs, parse_tlvs_loop, read_tlv, set_tlv_field, set_crc32c}
use proxy_protocol_rs.Error.{incomplete}
use proxy_protocol_rs.Parse.Tlv.View.{View}
use proxy_protocol_rs.Parse.Tlv.Accept.{IsAcceptable}
use proxy_protocol_rs.Parse.Tlv.Loop.{parse_tlvs-Returns, parse_tlvs-lossless, parse_tlvs-wire}
use proxy_protocol_rs.Parse.V2.Zeroed.{zero_crc}
use proxy_protocol_rs.Parse.V2.Integrity.{parse_v2-integrity}
use proxy_protocol_rs.Parse.Header.{parse, parse_binary}
use proxy_protocol_rs.Parse.Header.Total.{parse-Returns, parse-append}
use proxy_protocol_rs.Parse.V2.{
  parse_v2, parse_v2_payload, command_of, addresses_of, parse_v2_addresses, family_of, protocol_of,
  parse_inet, tlvs_of, tlvs_of_command, check_crc, compute_crc32c, find_crc_loop, crc_without,
}

abbrev total : List ℕ → ℕ
total [] = 0
total (x ∷ xs) = x + total xs

total-append : (xs ys : List ℕ) → total (xs ++ ys) ≡ total xs + total ys
total-append [] ys = omega arith
total-append (x ∷ xs) ys = omega (arith, total-append xs ys)

-- A sum in the place of the checksum
abbrev sum_crc : Crc32c
sum_crc = record {
  crc32c = λ xs. total xs % 2 ^ 32;
  crc32c_append = λ crc xs. (crc + total xs) % 2 ^ 32;
  crc32c-lt = λ xs. omega arith;
  append_law = λ xs ys. omega (arith, total-append xs ys);
}

abbrev client : Ipv4Addr
client = record { octets = 192 ∷ 0 ∷ 2 ∷ 1 ∷ [] }

abbrev server : Ipv4Addr
server = record { octets = 10 ∷ 0 ∷ 0 ∷ 1 ∷ [] }

abbrev builder : HeaderBuilder
builder = record {
  version = Version.v2;
  command = proxy;
  transport = some (record { family = inet4; protocol = stream });
  source = some (inet (socket_addr (v4 client) 51234));
  destination = some (inet (socket_addr (v4 server) 443));
  tlv_entries = (0x01, 0x68 ∷ 0x32 ∷ []) ∷ (0xea, 7 ∷ []) ∷ [];
  add_crc32c = true;
}

-- The header that the builder writes
abbrev header : List ℕ
header =
    13 ∷ 10 ∷ 13 ∷ 10 ∷ 0 ∷ 13 ∷ 10 ∷ 81 ∷ 85 ∷ 73 ∷ 84 ∷ 10 ∷ 33 ∷ 17 ∷ 0 ∷ 28 ∷ 192 ∷ 0 ∷ 2 ∷ 1
    ∷ 10 ∷ 0 ∷ 0 ∷ 1 ∷ 200 ∷ 34 ∷ 1 ∷ 187 ∷ 1 ∷ 0 ∷ 2 ∷ 104 ∷ 50 ∷ 234 ∷ 0 ∷ 1 ∷ 7 ∷ 3 ∷ 0 ∷ 4 ∷ 0
    ∷ 0 ∷ 5 ∷ 234 ∷ []

abbrev tags : List ℕ
tags = drop 28 header

abbrev entries : List Entry
entries = (0x01, 0x68 ∷ 0x32 ∷ []) ∷ (0xea, 7 ∷ []) ∷ (0x03, 0 ∷ 0 ∷ 5 ∷ 234 ∷ []) ∷ []

abbrev tlvs : Tlvs
tlvs = record tlvs_default { alpn = some (0x68 ∷ 0x32 ∷ []); crc32c = some 1514; raw = entries }

abbrev info : ProxyInfo
info = info_with builder tlvs

parse_tags : parse_tlvs tags ≡ ok tlvs
unfolding parse_tlvs parse_tlvs_loop read_tlv set_tlv_field set_crc32c
parse_tags = refl

parse_v2_header : parse_v2 sum_crc header ≡ ok (info, 44)
unfolding parse_v2 parse_v2_payload command_of addresses_of parse_v2_addresses family_of protocol_of
    parse_inet tlvs_of tlvs_of_command check_crc compute_crc32c find_crc_loop crc_without parse_tlvs
    parse_tlvs_loop read_tlv set_tlv_field set_crc32c
parse_v2_header = refl

all_bytes : List ℕ → Bool
all_bytes [] = true
all_bytes (x ∷ xs) = ltb x 256 && all_bytes xs

all_bytes-IsByte : (xs : List ℕ) → all_bytes xs ≡ true → All IsByte xs
unfolding all_bytes
all_bytes-IsByte [] h = tt
all_bytes-IsByte (x ∷ xs) h = ground (arith, all_bytes-IsByte xs)

header-IsByte : All IsByte header
header-IsByte = unfold all_bytes in all_bytes-IsByte header refl

tags-IsByte : All IsByte tags
tags-IsByte = unfold all_bytes in all_bytes-IsByte tags refl

octets :
    (a b c d : ℕ)
    → a < 256
    → b < 256
    → c < 256
    → d < 256
    → IsIpv4 (record { octets = a ∷ b ∷ c ∷ d ∷ [] })
octets a b c d p q r s = (refl, (p, (q, (r, (s, tt)))))

builder-Endpoints : Endpoints builder.command builder.transport builder.source builder.destination
builder-Endpoints =
    Endpoints.ipv4 stream client server 51234 443
      (octets 192 0 2 1 (omega arith) (omega arith) (omega arith) (omega arith))
      (octets 10 0 0 1 (omega arith) (omega arith) (omega arith) (omega arith)) (omega arith)
      (omega arith)

entries-Fits : All Fits entries
entries-Fits = (omega arith, (omega arith, (omega arith, tt)))

parse_tlvs-lossless_example :
    (wire entries ≡ tags) × All Fits entries × All IsAcceptable entries × View tlvs
parse_tlvs-lossless_example = parse_tlvs-lossless tags tlvs tags-IsByte parse_tags

entries-IsAcceptable : All IsAcceptable entries
entries-IsAcceptable = let (w, f, a, v) = parse_tlvs-lossless tags tlvs tags-IsByte parse_tags in a

parse_tlvs-wire_example :
    (t : Tlvs) × (parse_tlvs (wire entries) ≡ ok t) × (t.raw ≡ entries) × View t
parse_tlvs-wire_example = parse_tlvs-wire entries entries-Fits entries-IsAcceptable

parse_tlvs-Returns_example : Returns (parse_tlvs (1 ∷ 0 ∷ 9 ∷ []))
parse_tlvs-Returns_example = parse_tlvs-Returns (1 ∷ 0 ∷ 9 ∷ [])

parse_v2-integrity_example :
    (start : ℕ) × (start ≤ 44)
    × (take 44 header ≡ take start header ++ wire entries)
    × (sum_crc.crc32c (take start header ++ wire (zero_crc entries)) ≡ 1514)
parse_v2-integrity_example =
    parse_v2-integrity sum_crc header info 44 1514 header-IsByte parse_v2_header refl

parse-Returns_example : Returns (parse sum_crc (0x50 ∷ 0x52 ∷ []))
parse-Returns_example = parse-Returns sum_crc (0x50 ∷ 0x52 ∷ [])

parse_header : parse sum_crc header ≡ ok (info, 44)
unfolding parse parse_binary
parse_header = parse_v2_header

header_complete : parse sum_crc header ≢ err incomplete
header_complete h = ground (arith, parse_header)

parse-append_example : parse sum_crc (header ++ (1 ∷ 2 ∷ [])) ≡ parse sum_crc header
parse-append_example = parse-append sum_crc header (1 ∷ 2 ∷ []) header_complete
