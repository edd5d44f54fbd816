-- ===== src/Builder/Header/TextReachable.antt =====
-- The v1 headers that can be made with the constructors and the `with_` methods of builder.rs.
use proxy_protocol_rs.Prelude.{
  ℕ, ◌≡◌, refl, subst, leb, Bool, Bool-cases, inl, inr, List, length, Option, none, some,
  map_option, ok, err, panic, stuck, Outcome, ok-injective, arith,
}
use proxy_protocol_rs.Std.Net.{SocketAddr, sock4, sock6, is_ipv4}
use proxy_protocol_rs.Types.{Version, ProxyAddress, inet, Transport, TransportProtocol, SslInfo}
use proxy_protocol_rs.Builder.Ssl.{encode_ssl_tlv_value}
use proxy_protocol_rs.Builder.Calls.{
  HeaderBuilder, set_protocol, inet_family, v1_proxy, v1_unknown, with_transport_protocol,
  with_authority, with_unique_id, with_alpn, with_ssl, with_netns, with_raw_tlv, with_padding,
  with_crc32c,
}
use proxy_protocol_rs.Builder.Header.TextLine.{IsSocket}

-- The calls that make a v1 header: a constructor that does not panic, and then any methods that do
-- not panic.
pub data TextBuilt : HeaderBuilder → Type 0 where
  unknown_header : TextBuilt v1_unknown
  text_header :
      (s d : SocketAddr) {h : HeaderBuilder}
      → IsSocket s
      → IsSocket d
      → v1_proxy s d ≡ ok h
      → TextBuilt h
  transport_protocol :
      (p : TransportProtocol) {h : HeaderBuilder}
      → TextBuilt h
      → TextBuilt (with_transport_protocol p h)
  authority : (v : List ℕ) {h : HeaderBuilder} → TextBuilt h → TextBuilt (with_authority v h)
  unique_id :
      (v : List ℕ) {h h' : HeaderBuilder} → with_unique_id v h ≡ ok h' → TextBuilt h → TextBuilt h'
  alpn : (v : List ℕ) {h : HeaderBuilder} → TextBuilt h → TextBuilt (with_alpn v h)
  ssl : (s : SslInfo) {h h' : HeaderBuilder} → with_ssl s h ≡ ok h' → TextBuilt h → TextBuilt h'
  netns : (v : List ℕ) {h : HeaderBuilder} → TextBuilt h → TextBuilt (with_netns v h)
  raw_tlv : (k : ℕ) (v : List ℕ) {h : HeaderBuilder} → TextBuilt h → TextBuilt (with_raw_tlv k v h)
  padding : (n : ℕ) {h : HeaderBuilder} → TextBuilt h → TextBuilt (with_padding n h)
  crc32c : {h : HeaderBuilder} → TextBuilt h → TextBuilt (with_crc32c h)

-- Two addresses of the transport's family, or none
pub data TextEndpoints : Option Transport → Option ProxyAddress → Option ProxyAddress → Type 0 where
  nowhere : TextEndpoints none none none
  between :
      (t : Transport) (s d : SocketAddr)
      → t.family ≡ inet_family s
      → is_ipv4 s ≡ is_ipv4 d
      → IsSocket s
      → IsSocket d
      → TextEndpoints (some t) (some (inet s)) (some (inet d))

pub record IsTextHeader (h : HeaderBuilder) : Type 0 where
  pub version : h.version ≡ Version.v1
  pub endpoints : TextEndpoints h.transport h.source h.destination

-- The methods leave the version and the addresses.
protocol-TextEndpoints :
    (p : TransportProtocol) {t : Option Transport} {s d : Option ProxyAddress}
    → TextEndpoints t s d
    → TextEndpoints (map_option (set_protocol p) t) s d
protocol-TextEndpoints p nowhere = nowhere
protocol-TextEndpoints p (between t s d f e hs hd) = between (set_protocol p t) s d f e hs hd

same_header :
    (h : HeaderBuilder) (tlvs : List (ℕ × List ℕ)) (crc : Bool)
    → IsTextHeader h
    → IsTextHeader (record h { tlv_entries = tlvs; add_crc32c = crc })
same_header h tlvs crc t = record { version = t.version; endpoints = t.endpoints }

id-IsTextHeader :
    (v : List ℕ) {h h' : HeaderBuilder}
    → with_unique_id v h ≡ ok h'
    → IsTextHeader h
    → IsTextHeader h'
unfolding with_unique_id
id-IsTextHeader v {h} e t = elim (Bool-cases (leb (length v) 128)) [
  | inl q ↦ subst IsTextHeader (ok-injective (rw q at e)) (same_header h _ _ t)
  | inr q ↦ absurd (ground (arith, rw q at e))
]

ssl-IsTextHeader :
    (s : SslInfo) {h h' : HeaderBuilder} (o : Outcome (List ℕ) ⊥)
    → encode_ssl_tlv_value s ≡ o
    → with_ssl s h ≡ ok h'
    → IsTextHeader h
    → IsTextHeader h'
unfolding with_ssl
ssl-IsTextHeader s {h} (ok v) q e t =
    subst IsTextHeader (ok-injective (rw q at e)) (same_header h _ _ t)
ssl-IsTextHeader s (err x) q e t = absurd x
ssl-IsTextHeader s panic q e t = absurd (cc (rw q at e))
ssl-IsTextHeader s stuck q e t = absurd (cc (rw q at e))

proxy-IsTextHeader :
    (s d : SocketAddr) {h : HeaderBuilder}
    → IsSocket s
    → IsSocket d
    → v1_proxy s d ≡ ok h
    → IsTextHeader h
unfolding v1_proxy
proxy-IsTextHeader (sock4 s) (sock4 d) hs hd e =
    subst IsTextHeader (ok-injective e)
      (record { version = refl; endpoints = between _ (sock4 s) (sock4 d) refl refl hs hd })
proxy-IsTextHeader (sock6 s) (sock6 d) hs hd e =
    subst IsTextHeader (ok-injective e)
      (record { version = refl; endpoints = between _ (sock6 s) (sock6 d) refl refl hs hd })
proxy-IsTextHeader (sock4 s) (sock6 d) hs hd e = absurd (cc e)
proxy-IsTextHeader (sock6 s) (sock4 d) hs hd e = absurd (cc e)

-- Every v1 header has two addresses of its transport's family, or none.
pub TextBuilt-IsTextHeader : {h : HeaderBuilder} → TextBuilt h → IsTextHeader h
unfolding v1_unknown with_transport_protocol with_authority with_alpn with_netns with_raw_tlv
    with_padding with_crc32c
TextBuilt-IsTextHeader unknown_header = record { version = refl; endpoints = nowhere }
TextBuilt-IsTextHeader (text_header s d hs hd e) = proxy-IsTextHeader s d hs hd e
TextBuilt-IsTextHeader (transport_protocol p w) =
    let t = TextBuilt-IsTextHeader w in
    record { version = t.version; endpoints = protocol-TextEndpoints p t.endpoints }
TextBuilt-IsTextHeader (authority v {h} w) = same_header h _ _ (TextBuilt-IsTextHeader w)
TextBuilt-IsTextHeader (unique_id v e w) = id-IsTextHeader v e (TextBuilt-IsTextHeader w)
TextBuilt-IsTextHeader (alpn v {h} w) = same_header h _ _ (TextBuilt-IsTextHeader w)
TextBuilt-IsTextHeader (ssl s e w) = ssl-IsTextHeader s _ refl e (TextBuilt-IsTextHeader w)
TextBuilt-IsTextHeader (netns v {h} w) = same_header h _ _ (TextBuilt-IsTextHeader w)
TextBuilt-IsTextHeader (raw_tlv k v {h} w) = same_header h _ _ (TextBuilt-IsTextHeader w)
TextBuilt-IsTextHeader (padding n {h} w) = same_header h _ _ (TextBuilt-IsTextHeader w)
TextBuilt-IsTextHeader (crc32c {h} w) = same_header h _ _ (TextBuilt-IsTextHeader w)
