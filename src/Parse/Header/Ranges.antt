-- ===== src/Parse/Header/Ranges.antt =====
-- The values that `parse` of parse/mod.rs gives are values of their types.
use proxy_protocol_rs.Prelude.{
  ℕ, ◌-◌, ◌≡◌, refl, sym, subst, inl, inr, ltb, ltb→lt, unwrap_or_default, Bool-cases, List, take,
  drop, All, All-take, All-drop, IsByte, Outcome, ok, err, panic, stuck, slice_from_lem, OnOk,
  OnOk-ok, length, arith,
}
use proxy_protocol_rs.Std.Net.{IpAddr, v4, v6, socket_addr, IsIp, IsPort, IsSocket}
use proxy_protocol_rs.Types.{Command, local, proxy, Tlvs, tlvs_default, ProxyInfo}
use proxy_protocol_rs.Types.Ranges.{IsTlvs, IsProxyInfo}
use proxy_protocol_rs.Error.{ParseError}
use proxy_protocol_rs.Crc.{Crc32c}
use proxy_protocol_rs.Parse.Tlv.{parse_tlvs}
use proxy_protocol_rs.Parse.Tlv.Ranges.{parse_tlvs-IsTlvs}
use proxy_protocol_rs.Parse.V1.Fields.{LineRead, unknown, named, line-LineRead}
use proxy_protocol_rs.Parse.V2.{tlvs_of_command, tlvs_of}
use proxy_protocol_rs.Parse.V2.Ranges.{addresses-AreAddresses}
use proxy_protocol_rs.Parse.V2.Parsed.{payload_of, parse_v2-ParsedV2}
use proxy_protocol_rs.Parse.Header.{parse}
use proxy_protocol_rs.Parse.Header.Consumed.{parse_v1-ParsedV1, parse-cases}

default-IsTlvs : IsTlvs tlvs_default
default-IsTlvs = record {
  alpn = tt;
  authority = tt;
  crc32c = tt;
  unique_id = tt;
  netns = tt;
  ssl = tt;
  raw = tt;
}

or_default :
    (r : Outcome Tlvs ParseError)
    → OnOk IsTlvs r
    → OnOk {E = ParseError} IsTlvs (unwrap_or_default tlvs_default r)
or_default (ok t) h = OnOk-ok t (h.on_ok t refl)
or_default (err e) h = OnOk-ok tlvs_default default-IsTlvs
or_default panic h = record { on_ok = λ t e. cc }
or_default stuck h = record { on_ok = λ t e. cc }

tlvs_of_command-IsTlvs :
    (cmd : Command) (bytes : List ℕ) → All IsByte bytes → OnOk IsTlvs (tlvs_of_command cmd bytes)
unfolding tlvs_of_command
tlvs_of_command-IsTlvs proxy bytes b = record { on_ok = λ t e. parse_tlvs-IsTlvs bytes t b e }
tlvs_of_command-IsTlvs local bytes b =
    or_default (parse_tlvs bytes) (record { on_ok = λ t e. parse_tlvs-IsTlvs bytes t b e })

tlvs_of-IsTlvs :
    (cmd : Command) (n : ℕ) (payload : List ℕ)
    → All IsByte payload
    → OnOk IsTlvs (tlvs_of cmd n payload)
unfolding tlvs_of
tlvs_of-IsTlvs cmd n payload b = elim (Bool-cases (ltb n (length payload))) [
  | inl e ↦
      rw (e, slice_from_lem {E = ParseError} payload n (omega (arith, ltb→lt n (length payload) e)))
        (tlvs_of_command-IsTlvs cmd (drop n payload) (All-drop IsByte n payload b))
  | inr e ↦ rw e (OnOk-ok tlvs_default default-IsTlvs)
]

socket_addr-IsSocket :
    (a : IpAddr) (port : ℕ) → IsIp a → IsPort port → IsSocket (socket_addr a port)
socket_addr-IsSocket (v4 a) port h k = (h, k)
socket_addr-IsSocket (v6 a) port h k = (h, k)

LineRead-IsProxyInfo : {info : ProxyInfo} → LineRead info → IsProxyInfo info
LineRead-IsProxyInfo unknown = record { source = tt; destination = tt; tlvs = default-IsTlvs }
LineRead-IsProxyInfo (named f s d sp dp a b ips ports) = record {
  source = socket_addr-IsSocket s sp ips.0 ports.0;
  destination = socket_addr-IsSocket d dp ips.1 ports.1;
  tlvs = default-IsTlvs;
}

-- On bytes, what `parse` accepts is a value of the type `ProxyInfo`, in both versions: an IPv4
-- address has 4 octets and an IPv6 address 16, ports are below 65536, a Unix path has 108 bytes at
-- most, texts are UTF-8, also where the bytes were not, and the checksum is a u32.
pub parse-IsProxyInfo :
    (c : Crc32c) (buf : List ℕ) (info : ProxyInfo) (n : ℕ)
    → All IsByte buf
    → parse c buf ≡ ok (info, n)
    → IsProxyInfo info
parse-IsProxyInfo c buf info n bytes h = elim (parse-cases c buf info n h) [
  | inl text ↦
      let p = parse_v1-ParsedV1 buf info n text in
      LineRead-IsProxyInfo (line-LineRead (take p.line_end buf) info p.line)
  | inr binary ↦
      let p = parse_v2-ParsedV2 c buf info n binary in
      let payload = payload_of n buf in
      let inside = All-take IsByte (n - 16) (drop 16 buf) (All-drop IsByte 16 buf bytes) in
      let (s, d) =
        (addresses-AreAddresses payload inside p.cmd _ _).on_ok p.parsed.addresses
          p.parsed.addressed in
      subst IsProxyInfo (sym p.parsed.result) (record {
        source = s;
        destination = d;
        tlvs = (tlvs_of-IsTlvs p.cmd _ payload inside).on_ok p.parsed.tlvs p.parsed.tagged;
      })
]
