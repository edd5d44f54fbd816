-- ===== src/Parse/Header/Consistent.antt =====
-- The transport and the addresses that `parse` of parse/mod.rs gives.
use proxy_protocol_rs.Prelude.{
  ℕ, ◌≡◌, sym, subst, inl, inr, true, ltb, List, [], ◌∷◌, length, take, Option, none, some, ok,
  fail_if, OnOk, OnOk-bind, OnOk->>, OnOk-ok, index, slice, be16, ◌==◌, ◌||◌,
}
use proxy_protocol_rs.Std.Net.{IpAddr, v4, v6, Ipv4Addr, Ipv6Addr, socket_addr}
use proxy_protocol_rs.Types.{
  Command, local, proxy, ProxyAddress, inet, unix, Transport, AddressFamily, TransportProtocol,
  stream, inet4, inet6, unix_family, ProxyInfo,
}
use proxy_protocol_rs.Error.{invalid, payload_overflow, unspec_with_proxy}
use proxy_protocol_rs.Crc.{Crc32c}
use proxy_protocol_rs.Parse.V1.{family_matches}
use proxy_protocol_rs.Parse.V1.Fields.{LineRead, unknown, named, line-LineRead}
use proxy_protocol_rs.Parse.V2.{
  Addresses, family_of, protocol_of, extract_unix_path, ipv6_of, parse_inet, parse_inet6,
  parse_unix, parse_family, parse_v2_addresses, addresses_of,
}
use proxy_protocol_rs.Parse.V2.Parsed.{parse_v2-ParsedV2}
use proxy_protocol_rs.Parse.Header.{parse}
use proxy_protocol_rs.Parse.Header.Consumed.{parse_v1-ParsedV1, parse-cases}

-- No transport and no addresses, or two addresses of the transport's family
pub data Consistent : Option Transport → Option ProxyAddress → Option ProxyAddress → Type 0 where
  absent : Consistent none none none
  ipv4 :
      (p : TransportProtocol) (s d : Ipv4Addr) (sp dp : ℕ)
      → Consistent
          (some (record { family = inet4; protocol = p }))
          (some (inet (socket_addr (v4 s) sp)))
          (some (inet (socket_addr (v4 d) dp)))
  ipv6 :
      (p : TransportProtocol) (s d : Ipv6Addr) (sp dp : ℕ)
      → Consistent
          (some (record { family = inet6; protocol = p }))
          (some (inet (socket_addr (v6 s) sp)))
          (some (inet (socket_addr (v6 d) dp)))
  paths :
      (p : TransportProtocol) (s d : List ℕ)
      → Consistent
          (some (record { family = unix_family; protocol = p }))
          (some (unix s))
          (some (unix d))

abbrev pub IsConsistent : ProxyInfo → Type 0
IsConsistent i = Consistent i.transport i.source i.destination

matched :
    (f : AddressFamily) (s d : IpAddr) (sp dp : ℕ)
    → family_matches f s ≡ true
    → family_matches f d ≡ true
    → Consistent
        (some (record { family = f; protocol = stream }))
        (some (inet (socket_addr s sp)))
        (some (inet (socket_addr d dp)))
matched inet4 (v4 s) (v4 d) sp dp a b = ipv4 stream s d sp dp
matched inet6 (v6 s) (v6 d) sp dp a b = ipv6 stream s d sp dp
matched inet4 (v4 s) (v6 d) sp dp a b = cc
matched inet4 (v6 s) d sp dp a b = cc
matched inet6 (v4 s) d sp dp a b = cc
matched inet6 (v6 s) (v4 d) sp dp a b = cc
matched unix_family (v4 s) d sp dp a b = cc
matched unix_family (v6 s) d sp dp a b = cc

LineRead-IsConsistent : {info : ProxyInfo} → LineRead info → IsConsistent info
LineRead-IsConsistent unknown = absent
LineRead-IsConsistent (named f s d sp dp a b ips ports) = matched f s d sp dp a b

abbrev IsPair : Addresses → Type 0
IsPair a = Consistent a.transport a.source a.destination

family-IsPair :
    (f : AddressFamily) (p : TransportProtocol) (payload : List ℕ)
    → OnOk IsPair (parse_family f (record { family = f; protocol = p }) payload)
unfolding parse_inet parse_inet6 parse_unix
family-IsPair inet4 p payload =
    OnOk->> (fail_if (ltb (length payload) 12) (invalid (payload_overflow 12 (length payload)))) _ (
      OnOk-bind (index payload 0) _ λ s0. OnOk-bind (index payload 1) _ λ s1.
        OnOk-bind (index payload 2) _ λ s2. OnOk-bind (index payload 3) _ λ s3.
          OnOk-bind (index payload 4) _ λ d0. OnOk-bind (index payload 5) _ λ d1.
            OnOk-bind (index payload 6) _ λ d2. OnOk-bind (index payload 7) _ λ d3.
              OnOk-bind (index payload 8) _ λ a. OnOk-bind (index payload 9) _ λ b.
                OnOk-bind (index payload 10) _ λ c. OnOk-bind (index payload 11) _ λ d. OnOk-ok _ (
                  ipv4 p (record { octets = s0 ∷ s1 ∷ s2 ∷ s3 ∷ [] })
                    (record { octets = d0 ∷ d1 ∷ d2 ∷ d3 ∷ [] }) (be16 a b) (be16 c d)))
family-IsPair inet6 p payload =
    OnOk->> (fail_if (ltb (length payload) 36) (invalid (payload_overflow 36 (length payload)))) _ (
      OnOk-bind (slice payload 0 16) _ λ x. OnOk-bind (ipv6_of x) _ λ s.
        OnOk-bind (slice payload 16 32) _ λ y. OnOk-bind (ipv6_of y) _ λ t.
          OnOk-bind (index payload 32) _ λ a. OnOk-bind (index payload 33) _ λ b.
            OnOk-bind (index payload 34) _
              λ c. OnOk-bind (index payload 35) _ λ d. OnOk-ok _ (ipv6 p s t (be16 a b) (be16 c d)))
family-IsPair unix_family p payload =
    OnOk->> (fail_if (ltb (length payload) 216) (invalid (payload_overflow 216 (length payload)))) _
      (OnOk-bind (slice payload 0 108) _ λ x.
        OnOk-bind (slice payload 108 216) _
          λ y. OnOk-ok _ (paths p (extract_unix_path x) (extract_unix_path y)))

addresses-IsPair :
    (cmd : Command) (f p : ℕ) (payload : List ℕ) → OnOk IsPair (addresses_of cmd f p payload)
unfolding addresses_of parse_v2_addresses
addresses-IsPair local f p payload = OnOk-ok _ absent
addresses-IsPair proxy f p payload =
    OnOk->> (fail_if (f == 0 || p == 0) (invalid unspec_with_proxy)) _ (
      OnOk-bind (family_of f) _
        λ family. OnOk-bind (protocol_of p) _ λ protocol. family-IsPair family protocol payload)

-- What `parse` accepts is consistent, in both versions: there is no transport and no address, or there
-- are two addresses, of the family that the transport names.
pub parse-IsConsistent :
    (c : Crc32c) (buf : List ℕ) (info : ProxyInfo) (n : ℕ)
    → parse c buf ≡ ok (info, n)
    → IsConsistent info
parse-IsConsistent c buf info n h = elim (parse-cases c buf info n h) [
  | inl text ↦
      let p = parse_v1-ParsedV1 buf info n text in
      LineRead-IsConsistent (line-LineRead (take p.line_end buf) info p.line)
  | inr binary ↦
      let p = parse_v2-ParsedV2 c buf info n binary in
      subst IsConsistent (sym p.parsed.result)
        ((addresses-IsPair p.cmd _ _ _).on_ok p.parsed.addresses p.parsed.addressed)
]
