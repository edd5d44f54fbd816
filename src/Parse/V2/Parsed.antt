-- ===== src/Parse/V2/Parsed.antt =====
-- What a successful run of `parse_v2` of parse/v2.rs has done.
use proxy_protocol_rs.Prelude.{
  ℕ, ◌+◌, ◌-◌, ◌/◌, ◌≤◌, ◌≡◌, subst, sym, ap, ◌∙◌, inl, inr, List, length, take, drop, slice_lem,
  be16, bit_and, Bool-cases, ltb, ltb→lt, ltb_false→le, ◌==◌, not, ok, >>=-eq-ok, >>-eq-ok,
  ok-injective, fail_if, arith,
}
use proxy_protocol_rs.Types.{Command, Tlvs, ProxyInfo, Version}
use proxy_protocol_rs.Error.{ParseError, incomplete, invalid, unsupported_version}
use proxy_protocol_rs.Crc.{Crc32c}
use proxy_protocol_rs.Parse.V2.{
  Addresses, command_of, addresses_of, tlvs_of, check_crc, parse_v2_payload, parse_v2,
}
use proxy_protocol_rs.Parse.V2.Total.{
  FixedHeader, fixed_header_of, parse_v2_short, behind_signature,
}

-- The bytes behind the fixed header that it counts
abbrev pub payload_of : ℕ → List ℕ → List ℕ
payload_of n buf = take (n - 16) (drop 16 buf)

abbrev pub info_of : Command → Addresses → Tlvs → ProxyInfo
info_of cmd a t = record {
  version = Version.v2;
  command = cmd;
  transport = a.transport;
  source = a.source;
  destination = a.destination;
  tlvs = t;
}

module _ (c : Crc32c) where
  -- The steps of `parse_v2_payload`
  pub record Parsed (cmd : Command) (fp n : ℕ) (buf : List ℕ) (info : ProxyInfo) : Type 0 where
    pub addresses : Addresses
    pub tlvs : Tlvs
    pub fits : n ≤ length buf
    pub long : 16 ≤ n
    pub addressed : addresses_of cmd (fp / 16) (bit_and fp 0x0f) (payload_of n buf) ≡ ok addresses
    pub tagged : tlvs_of cmd addresses.tlv_offset (payload_of n buf) ≡ ok tlvs
    pub checked : check_crc c tlvs.crc32c buf n (16 + addresses.tlv_offset) ≡ ok tt
    pub result : info ≡ info_of cmd addresses tlvs

  parse_v2_payload-Parsed :
      (cmd : Command) (fp hi lo : ℕ) (buf : List ℕ) {info : ProxyInfo} {n : ℕ}
      → parse_v2_payload c cmd fp hi lo buf ≡ ok (info, n)
      → Parsed cmd fp n buf info × (n ≡ 16 + be16 hi lo)
  unfolding parse_v2_payload
  parse_v2_payload-Parsed cmd fp hi lo buf {info} {n} h =
      let m = 16 + be16 hi lo in
      let (enough, h1) = >>-eq-ok (fail_if (ltb (length buf) m) incomplete) _ h in
      let fits : m ≤ length buf = ground arith in
      let h2 = rw (slice_lem {E = ParseError} buf 16 m (omega arith) fits) at h1 in
      let (a, addressed, h3) =
        >>=-eq-ok (addresses_of cmd (fp / 16) (bit_and fp 0x0f) (payload_of m buf)) _ h2 in
      let (t, tagged, h4) = >>=-eq-ok (tlvs_of cmd a.tlv_offset (payload_of m buf)) _ h3 in
      let (checked, h5) = >>-eq-ok (check_crc c t.crc32c buf m (16 + a.tlv_offset)) _ h4 in
      let pair : ◌≡◌ {A = ProxyInfo × ℕ} (info_of cmd a t, m) (info, n) = ok-injective h5 in
      let same : m ≡ n = ap (λ p. p.1) pair in
      (
        subst (λ k. Parsed cmd fp k buf info) same
            (record {
              addresses = a;
              tlvs = t;
              fits = fits;
              long = omega arith;
              addressed = addressed;
              tagged = tagged;
              checked = checked;
              result = sym (ap (λ p. p.0) pair);
            }),
        sym same,
      )

  -- The steps of `parse_v2`
  pub record ParsedV2 (buf : List ℕ) (info : ProxyInfo) (n : ℕ) : Type 0 where
    pub header : FixedHeader c buf
    pub cmd : Command
    pub version_two : header.ver_cmd / 16 ≡ 2
    pub commanded : command_of (bit_and header.ver_cmd 0x0f) ≡ ok cmd
    pub total : n ≡ 16 + be16 header.hi header.lo
    pub parsed : Parsed cmd header.fam_proto n buf info

  pub parse_v2-ParsedV2 :
      (buf : List ℕ) (info : ProxyInfo) (n : ℕ)
      → parse_v2 c buf ≡ ok (info, n)
      → ParsedV2 buf info n
  parse_v2-ParsedV2 buf info n h = elim (Bool-cases (ltb (length buf) 16)) [
    | inl short ↦ cc (parse_v2_short c buf (ltb→lt _ _ short))
    | inr long ↦
        let f = fixed_header_of c buf (ltb_false→le _ _ long) in
        let h1 : behind_signature c f.ver_cmd f.fam_proto f.hi f.lo buf ≡ ok (info, n) =
          sym f.parsed ∙ h in
        let (two, h2) =
          >>-eq-ok
            (fail_if (not (f.ver_cmd / 16 == 0x02))
              (invalid (unsupported_version (f.ver_cmd / 16))))
            _ h1 in
        let (cmd, commanded, h3) = >>=-eq-ok (command_of (bit_and f.ver_cmd 0x0f)) _ h2 in
        let (p, total) = parse_v2_payload-Parsed cmd f.fam_proto f.hi f.lo buf h3 in
        record {
          header = f;
          cmd = cmd;
          version_two = ground arith;
          commanded = commanded;
          total = total;
          parsed = p;
        }
  ]
