-- ===== src/Builder/Header/Size.antt =====
-- When `build` of builder.rs panics, and how many bytes it writes.
use proxy_protocol_rs.Prelude.{
  ℕ, ◌+◌, ◌-◌, ◌/◌, ◌%◌, ◌≤◌, ◌<◌, ◌≡◌, refl, sym, ap, ◌∙◌, Bool, true, false, List, [], ◌∷◌,
  length, length-append, All, leb, leb→le, Bool-cases, inl, inr, bit_or, Option, none, some, ok,
  panic, ok-injective, arith,
}
use proxy_protocol_rs.Types.{
  Version, Command, ProxyAddress, Transport, AddressFamily, inet4, inet6, unix_family,
}
use proxy_protocol_rs.Crc.{Crc32c}
use proxy_protocol_rs.Parse.Wire.{Entry, wire, Fits}
use proxy_protocol_rs.Parse.Header.Frame.{header_bytes}
use proxy_protocol_rs.Builder.Calls.{HeaderBuilder}
use proxy_protocol_rs.Builder.Header.{
  cmd_nibble, fam_proto, encode_addresses, command_addresses, build_version, build_v2, build,
}
use proxy_protocol_rs.Builder.Header.Shape.{
  crc_entries, payload_with, header_with, build_v2-shape, unfilled-shape,
}
use proxy_protocol_rs.Builder.Header.Endpoints.{Endpoints, Endpoints-ReadsBack}
use proxy_protocol_rs.Builder.Header.Fields.{
  padded, length-padded, unix_field-padded, length-inet_bytes,
}
use proxy_protocol_rs.Builder.Header.RoundTrip.{length-tail}

abbrev pub family_size : AddressFamily → ℕ
family_size inet4 = 12
family_size inet6 = 36
family_size unix_family = 216

-- The size of the addresses
abbrev pub address_size : Option Transport → ℕ
address_size none = 0
address_size (some t) = family_size t.family

-- The size of the TLVs
abbrev pub tlvs_size : List Entry → ℕ
tlvs_size [] = 0
tlvs_size ((k, v) ∷ es) = 3 + length v + tlvs_size es

abbrev pub crc_size : Bool → ℕ
crc_size true = 7
crc_size false = 0

-- The size of the payload
abbrev pub payload_size : HeaderBuilder → ℕ
payload_size h = address_size h.transport + (tlvs_size h.tlv_entries + crc_size h.add_crc32c)

length-wire : (es : List Entry) → length (wire es) ≡ tlvs_size es
length-wire [] = refl
length-wire ((k, v) ∷ es) = omega (arith, length-append v (wire es), length-wire es)

length-crc_wire : (b : Bool) → length (wire (crc_entries b 0)) ≡ crc_size b
length-crc_wire true = refl
length-crc_wire false = refl

address_length :
    {cmd : Command} {tr : Option Transport} {src dst : Option ProxyAddress} {bytes : List ℕ}
    → Endpoints cmd tr src dst
    → command_addresses cmd src dst ≡ ok bytes
    → length bytes ≡ address_size tr
unfolding encode_addresses
address_length Endpoints.no_address e = ap length (sym (ok-injective e))
address_length (Endpoints.ipv4 p s d sp dp hs hd hsp hdp) e =
    ap length (sym (ok-injective e))
    ∙ omega (arith, length-inet_bytes s.octets d.octets sp dp, hs.0, hd.0)
address_length (Endpoints.ipv6 p s d sp dp hs hd hsp hdp) e =
    ap length (sym (ok-injective e))
    ∙ omega (arith, length-inet_bytes s.octets d.octets sp dp, hs.0, hd.0)
address_length (Endpoints.paths p s d hs hd) e =
    ap length (sym (ok-injective (rw (unix_field-padded s hs.0, unix_field-padded d hd.0) at e)))
    ∙ omega (arith, length-append (padded s) (padded d), length-padded s hs.0, length-padded d hd.0)

module _ (c : Crc32c) where
  too_large :
      (h : HeaderBuilder) (addresses : List ℕ)
      → All Fits h.tlv_entries
      → command_addresses h.command h.source h.destination ≡ ok addresses
      → 65535 < length (payload_with h addresses 0)
      → build_v2 c h ≡ panic
  unfolding build_v2
  too_large h addresses f e large =
      let payload = payload_with h addresses 0 in
      let buf =
        header_bytes (bit_or 0x20 (cmd_nibble h.command)) (fam_proto h.transport) 0 0 payload in
      let len : length buf - 16 ≡ length payload = omega arith in
      elim (Bool-cases (leb (length payload) 65535)) [
        | inl fits ↦ absurd (omega (arith, leb→le (length payload) 65535 fits))
        | inr no_fit ↦ rw (unfilled-shape h addresses f e, len, no_fit)
      ]

  length-payload :
      (h : HeaderBuilder) (addresses : List ℕ) (sum : ℕ)
      → length addresses ≡ address_size h.transport
      → length (payload_with h addresses sum) ≡ payload_size h
  length-payload h addresses sum e = omega (
    arith,
    length-tail h.tlv_entries h.add_crc32c sum addresses,
    length-wire h.tlv_entries,
    length-crc_wire h.add_crc32c,
    e,
  )

  -- `build` of a v2 header whose addresses are those of its transport's family and whose TLVs each
  -- fit the format comes back exactly if the payload (the addresses, the TLVs, and the checksum's TLV
  -- if there is one) has at most 65535 bytes, and it writes 16 bytes more than those; otherwise it
  -- panics.
  pub build-payload_size :
      (h : HeaderBuilder)
      → h.version ≡ Version.v2
      → Endpoints h.command h.transport h.source h.destination
      → All Fits h.tlv_entries
      → (payload_size h ≤ 65535
          → (bytes : List ℕ) × (build c h ≡ ok bytes) × (length bytes ≡ 16 + payload_size h))
        × (65535 < payload_size h → build c h ≡ panic)
  unfolding build
  build-payload_size h v ends f =
      let back = Endpoints-ReadsBack ends in
      let len = address_length ends back.encoded in
      let at_version = ap (λ w. build_version c w h) v in
      let sum = c.crc32c (header_with h back.bytes 0) in
      let n = length (payload_with h back.bytes 0) in
      (
        λ small. (
          header_bytes (bit_or 0x20 (cmd_nibble h.command)) (fam_proto h.transport) (n / 256)
              (n % 256) (payload_with h back.bytes sum),
          at_version
              ∙ build_v2-shape c h back.bytes f back.encoded
                  (omega (arith, length-payload h back.bytes 0 len)),
          omega (arith, length-payload h back.bytes sum len),
        ),
        λ large.
            at_version
            ∙ too_large h back.bytes f back.encoded
                (omega (arith, length-payload h back.bytes 0 len)),
      )
