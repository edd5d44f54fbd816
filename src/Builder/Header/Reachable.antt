-- ===== src/Builder/Header/Reachable.antt =====
-- The v2 headers that can be made with the constructors and the `with_` methods of builder.rs.
use proxy_protocol_rs.Prelude.{
  ℕ, ◌<◌, ◌≡◌, ◌≢◌, refl, subst, leb, leb→le, Bool-cases, inl, inr, List, [], ◌∷◌, length,
  replicate, length-replicate, All, All-append, Option, map_option, ok, ok-injective, arith,
}
use proxy_protocol_rs.Std.Net.{v4, v6, IsIpv4, IsIpv6, IsPort, Ipv4Addr, Ipv6Addr, socket_addr}
use proxy_protocol_rs.Types.{
  Version, Command, ProxyAddress, Transport, TransportProtocol, stream, SslInfo,
}
use proxy_protocol_rs.Builder.Ssl.{encode_ssl_tlv_value}
use proxy_protocol_rs.Builder.Ssl.RoundTrip.{encode_ssl-IsSslValue}
use proxy_protocol_rs.Builder.Calls.{
  HeaderBuilder, set_protocol, push_tlv, v2_proxy, v2_local, v2_unix, with_transport_protocol,
  with_authority, with_unique_id, with_alpn, with_ssl, with_netns, with_raw_tlv, with_padding,
  with_crc32c,
}
use proxy_protocol_rs.Builder.Header.Endpoints.{Endpoints}
use proxy_protocol_rs.Builder.Header.Fields.{IsUnixPath}
use proxy_protocol_rs.Builder.Header.Plain.{IsPlain}

-- The calls that make a v2 header: a constructor, and then methods with values that fit. A raw TLV
-- is one that the parser accepts and no checksum.
pub data Built : HeaderBuilder → Type 0 where
  local_header : Built v2_local
  ipv4_header :
      (s d : Ipv4Addr) (sp dp : ℕ) {h : HeaderBuilder}
      → IsIpv4 s
      → IsIpv4 d
      → IsPort sp
      → IsPort dp
      → v2_proxy (socket_addr (v4 s) sp) (socket_addr (v4 d) dp) ≡ ok h
      → Built h
  ipv6_header :
      (s d : Ipv6Addr) (sp dp : ℕ) {h : HeaderBuilder}
      → IsIpv6 s
      → IsIpv6 d
      → IsPort sp
      → IsPort dp
      → v2_proxy (socket_addr (v6 s) sp) (socket_addr (v6 d) dp) ≡ ok h
      → Built h
  unix_header :
      (s d : List ℕ) (p : TransportProtocol) → IsUnixPath s → IsUnixPath d → Built (v2_unix s d p)
  transport_protocol :
      (p : TransportProtocol) {h : HeaderBuilder} → Built h → Built (with_transport_protocol p h)
  authority :
      (v : List ℕ) {h : HeaderBuilder} → length v < 65536 → Built h → Built (with_authority v h)
  unique_id : (v : List ℕ) {h h' : HeaderBuilder} → with_unique_id v h ≡ ok h' → Built h → Built h'
  alpn : (v : List ℕ) {h : HeaderBuilder} → length v < 65536 → Built h → Built (with_alpn v h)
  ssl :
      (s : SslInfo) (v : List ℕ) {h h' : HeaderBuilder}
      → encode_ssl_tlv_value s ≡ ok v
      → length v < 65536
      → with_ssl s h ≡ ok h'
      → Built h
      → Built h'
  netns : (v : List ℕ) {h : HeaderBuilder} → length v < 65536 → Built h → Built (with_netns v h)
  raw_tlv :
      (k : ℕ) (v : List ℕ) {h : HeaderBuilder}
      → IsPlain (k, v)
      → Built h
      → Built (with_raw_tlv k v h)
  padding : (n : ℕ) {h : HeaderBuilder} → n < 65536 → Built h → Built (with_padding n h)
  crc32c : {h : HeaderBuilder} → Built h → Built (with_crc32c h)

-- What `build` wants of a v2 header for the parser to read it back
pub record IsReadable (h : HeaderBuilder) : Type 0 where
  pub version : h.version ≡ Version.v2
  pub endpoints : Endpoints h.command h.transport h.source h.destination
  pub plain : All IsPlain h.tlv_entries

-- A TLV whose type has no form of its own
IsPlain-value :
    (k : ℕ) (v : List ℕ) → length v < 65536 → k ≢ 0x03 → k ≢ 0x05 → k ≢ 0x20 → IsPlain (k, v)
IsPlain-value k v fits a b c = (fits, (λ e. absurd (a e), λ e. absurd (b e), λ e. absurd (c e)), a)

push-IsReadable :
    (k : ℕ) (v : List ℕ) {h : HeaderBuilder}
    → IsPlain (k, v)
    → IsReadable h
    → IsReadable (push_tlv k v h)
push-IsReadable k v {h} p r = record {
  version = r.version;
  endpoints = r.endpoints;
  plain = All-append IsPlain h.tlv_entries ((k, v) ∷ []) r.plain (p, tt);
}

protocol-Endpoints :
    (p : TransportProtocol) {cmd : Command} {tr : Option Transport} {src dst : Option ProxyAddress}
    → Endpoints cmd tr src dst
    → Endpoints cmd (map_option (set_protocol p) tr) src dst
protocol-Endpoints p Endpoints.no_address = Endpoints.no_address
protocol-Endpoints p (Endpoints.ipv4 q s d sp dp a b e f) = Endpoints.ipv4 p s d sp dp a b e f
protocol-Endpoints p (Endpoints.ipv6 q s d sp dp a b e f) = Endpoints.ipv6 p s d sp dp a b e f
protocol-Endpoints p (Endpoints.paths q s d a b) = Endpoints.paths p s d a b

id-IsReadable :
    (v : List ℕ) {h h' : HeaderBuilder} → with_unique_id v h ≡ ok h' → IsReadable h → IsReadable h'
unfolding with_unique_id
id-IsReadable v {h} {h'} e r = elim (Bool-cases (leb (length v) 128)) [
  | inl q ↦
      let le = leb→le (length v) 128 q in
      subst IsReadable (ok-injective (rw q at e)) (
        push-IsReadable 0x05 v
          (
            omega arith,
            (λ i. absurd (omega arith), λ i. le, λ i. absurd (omega arith)),
            λ i. omega arith,
          )
          r)
  | inr q ↦ absurd (ground (arith, rw q at e))
]

ssl-IsReadable :
    (s : SslInfo) (v : List ℕ) {h h' : HeaderBuilder}
    → encode_ssl_tlv_value s ≡ ok v
    → length v < 65536
    → with_ssl s h ≡ ok h'
    → IsReadable h
    → IsReadable h'
unfolding with_ssl
ssl-IsReadable s v {h} {h'} q fits e r = subst IsReadable (ok-injective (rw q at e)) (
    push-IsReadable 0x20 v
      (
        fits,
        (λ i. absurd (omega arith), λ i. absurd (omega arith), λ i. encode_ssl-IsSslValue s q),
        λ i. omega arith,
      )
      r)

-- Such a header is of version 2, has two addresses of its transport's family or none, and its TLVs
-- are plain.
pub Built-IsReadable : {h : HeaderBuilder} → Built h → IsReadable h
unfolding v2_local v2_proxy v2_unix with_transport_protocol with_authority with_alpn with_netns
    with_raw_tlv with_padding with_crc32c
Built-IsReadable local_header = record {
  version = refl;
  endpoints = Endpoints.no_address;
  plain = tt;
}
Built-IsReadable (ipv4_header s d sp dp a b e f q) =
    subst IsReadable (ok-injective q)
      (record { version = refl; endpoints = Endpoints.ipv4 stream s d sp dp a b e f; plain = tt })
Built-IsReadable (ipv6_header s d sp dp a b e f q) =
    subst IsReadable (ok-injective q)
      (record { version = refl; endpoints = Endpoints.ipv6 stream s d sp dp a b e f; plain = tt })
Built-IsReadable (unix_header s d p a b) = record {
  version = refl;
  endpoints = Endpoints.paths p s d a b;
  plain = tt;
}
Built-IsReadable (transport_protocol p w) =
    let r = Built-IsReadable w in
    record { version = r.version; endpoints = protocol-Endpoints p r.endpoints; plain = r.plain }
Built-IsReadable (authority v fits w) =
    push-IsReadable 0x02 v
      (IsPlain-value 0x02 v fits (λ i. omega arith) (λ i. omega arith) (λ i. omega arith))
      (Built-IsReadable w)
Built-IsReadable (unique_id v e w) = id-IsReadable v e (Built-IsReadable w)
Built-IsReadable (alpn v fits w) =
    push-IsReadable 0x01 v
      (IsPlain-value 0x01 v fits (λ i. omega arith) (λ i. omega arith) (λ i. omega arith))
      (Built-IsReadable w)
Built-IsReadable (ssl s v q fits e w) = ssl-IsReadable s v q fits e (Built-IsReadable w)
Built-IsReadable (netns v fits w) =
    push-IsReadable 0x30 v
      (IsPlain-value 0x30 v fits (λ i. omega arith) (λ i. omega arith) (λ i. omega arith))
      (Built-IsReadable w)
Built-IsReadable (raw_tlv k v p w) = push-IsReadable k v p (Built-IsReadable w)
Built-IsReadable (padding n fits w) =
    push-IsReadable 0x04 (replicate n 0)
      (IsPlain-value 0x04 (replicate n 0) (omega (arith, length-replicate {A = ℕ} n 0))
        (λ i. omega arith) (λ i. omega arith) (λ i. omega arith))
      (Built-IsReadable w)
Built-IsReadable (crc32c w) =
    let r = Built-IsReadable w in
    record { version = r.version; endpoints = r.endpoints; plain = r.plain }
