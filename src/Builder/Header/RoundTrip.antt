-- ===== src/Builder/Header/RoundTrip.antt =====
-- `build` of builder.rs, in the v2 format, against `parse` of parse/mod.rs.
use proxy_protocol_rs.Prelude.{
  ℕ, ◌+◌, ◌-◌, ◌/◌, ◌%◌, ◌<◌, ◌≡◌, refl, sym, ap, ◌∙◌, subst, inl, inr, Bool, true, false, List,
  ◌++◌, append-nil, length, All, All-append, length-append, drop-append, to_be32, bit_or, leb,
  leb→le, ==_iff, Bool-cases, none, some, and_then, ok, ok-injective, arith,
}
use proxy_protocol_rs.Types.{Version, Tlvs, ProxyInfo}
use proxy_protocol_rs.Crc.{Crc32c}
use proxy_protocol_rs.Parse.Wire.{Entry, wire, Fits, wire-append, last_of, last_of-snoc}
use proxy_protocol_rs.Parse.Tlv.{parse_tlvs}
use proxy_protocol_rs.Parse.Tlv.View.{View, crc_of}
use proxy_protocol_rs.Parse.Tlv.Accept.{IsAcceptable}
use proxy_protocol_rs.Parse.Tlv.Loop.{parse_tlvs-wire}
use proxy_protocol_rs.Parse.V2.{compute_crc32c, check_crc}
use proxy_protocol_rs.Parse.V2.Zeroed.{compute_crc32c-wire}
use proxy_protocol_rs.Parse.V2.Integrity.{sound}
use proxy_protocol_rs.Parse.Header.{parse}
use proxy_protocol_rs.Parse.Header.Frame.{header_bytes, tlvs_of-parsed, Frame, parse-Frame}
use proxy_protocol_rs.Builder.Calls.{HeaderBuilder}
use proxy_protocol_rs.Builder.Header.{
  cmd_nibble, fam_proto, command_addresses, build_version, build_v2, build,
}
use proxy_protocol_rs.Builder.Header.Shape.{
  crc_entries, payload_with, header_with, build_v2-shape, unfilled-shape,
}
use proxy_protocol_rs.Builder.Header.Endpoints.{Endpoints, ReadsBack, Endpoints-ReadsBack}
use proxy_protocol_rs.Builder.Header.Plain.{
  IsPlain, plain-Fits, plain-IsAcceptable, crc_entries-Fits, crc_entries-IsAcceptable,
  zero_crc-plain, last_crc-plain, crc_of-to_be32,
}

pub sixteen :
    (vc fp hi lo : ℕ) (addresses : List ℕ)
    → 16 + length addresses ≡ length (header_bytes vc fp hi lo addresses)
sixteen vc fp hi lo addresses = omega arith

length-crc_entries :
    (b : Bool) (sum : ℕ) → length (wire (crc_entries b sum)) ≡ length (wire (crc_entries b 0))
length-crc_entries true sum = refl
length-crc_entries false sum = refl

pub length-tail :
    (es : List Entry) (b : Bool) (sum : ℕ) (addresses : List ℕ)
    → length (addresses ++ wire (es ++ crc_entries b sum))
      ≡ length addresses + (length (wire es) + length (wire (crc_entries b 0)))
length-tail es b sum addresses =
    length-append addresses (wire (es ++ crc_entries b sum))
    ∙ ap (λ n. length addresses + n)
        (ap length (wire-append es (crc_entries b sum))
          ∙ (length-append (wire es) (wire (crc_entries b sum))
              ∙ ap (λ n. length (wire es) + n) (length-crc_entries b sum)))

-- The length of the payload does not depend on the checksum.
length-payload_with :
    (h : HeaderBuilder) (addresses : List ℕ) (sum : ℕ)
    → length (payload_with h addresses sum) ≡ length (payload_with h addresses 0)
length-payload_with h addresses sum =
    length-tail h.tlv_entries h.add_crc32c sum addresses
    ∙ sym (length-tail h.tlv_entries h.add_crc32c 0 addresses)

-- The builder's endpoints, with the TLVs `t`
abbrev pub info_with : HeaderBuilder → Tlvs → ProxyInfo
info_with h t = record {
  version = Version.v2;
  command = h.command;
  transport = h.transport;
  source = h.source;
  destination = h.destination;
  tlvs = t;
}

module _ (c : Crc32c) where
  -- The parser's check of the checksum that the builder wrote
  checks :
      (b : Bool) (t : Tlvs) (es : List Entry) (vc fp hi lo : ℕ) (addresses more : List ℕ)
      → let zeroed = header_bytes vc fp hi lo (addresses ++ wire (es ++ crc_entries b 0)) in
        let sum = c.crc32c zeroed in
        All IsPlain es
        → t.raw ≡ es ++ crc_entries b sum
        → View t
        → check_crc c t.crc32c
            (header_bytes vc fp hi lo ((addresses ++ wire (es ++ crc_entries b sum)) ++ more))
            (16 + length (addresses ++ wire (es ++ crc_entries b sum)))
            (16 + length addresses)
          ≡ ok tt
  unfolding check_crc
  checks false t es vc fp hi lo addresses more p r w =
      let raw : t.raw ≡ es = r ∙ append-nil es in
      let e : t.crc32c ≡ none =
        w.crc32c ∙ ap (λ o. and_then o crc_of) (ap (last_of 0x03) raw ∙ last_crc-plain es p) in
      rw e
  checks true t es vc fp hi lo addresses more p r w =
      let sum =
        c.crc32c (header_bytes vc fp hi lo (addresses ++ wire (es ++ crc_entries true 0))) in
      let all = es ++ crc_entries true sum in
      let pre = header_bytes vc fp hi lo addresses in
      let last : last_of 0x03 t.raw ≡ some (to_be32 sum) =
        ap (last_of 0x03) r ∙ last_of-snoc 0x03 0x03 (to_be32 sum) es in
      let e : t.crc32c ≡ some sum =
        w.crc32c ∙ (ap (λ o. and_then o crc_of) last ∙ crc_of-to_be32 sum (c.crc32c-lt _)) in
      let s = sound all (All-append Fits es _ (plain-Fits es p) (crc_entries-Fits true sum)) (
        All-append IsAcceptable es _ (plain-IsAcceptable es p)
          (crc_entries-IsAcceptable true sum)) in
      let run =
        compute_crc32c-wire c pre all more (16 + length (addresses ++ wire all)) s (omega arith) in
      let run' =
        ap (compute_crc32c c _ _) (sixteen vc fp hi lo addresses)
        ∙ run
        ∙ ap (λ q. ok (c.crc32c (pre ++ wire q))) (zero_crc-plain es sum p) in
      rw (e, run', (==_iff sum sum).1 refl)

  -- A builder that comes back has a payload that its length field can count.
  built-small :
      (h : HeaderBuilder) (addresses bytes : List ℕ)
      → All Fits h.tlv_entries
      → command_addresses h.command h.source h.destination ≡ ok addresses
      → build_v2 c h ≡ ok bytes
      → length (payload_with h addresses 0) < 65536
  unfolding build_v2
  built-small h addresses bytes f e built =
      elim (Bool-cases (leb (length (payload_with h addresses 0)) 65535)) [
        | inl fits ↦ omega (arith, leb→le _ _ fits)
        | inr large ↦
            let payload = payload_with h addresses 0 in
            let buf =
              header_bytes (bit_or 0x20 (cmd_nibble h.command)) (fam_proto h.transport) 0 0
                payload in
            let len : length buf - 16 ≡ length payload = omega arith in
            absurd (ground (arith, rw (unfilled-shape h addresses f e, len, large) at built))
      ]

  -- What `build_v2` writes is a header that parse takes, with the builder's TLVs.
  written :
      (h : HeaderBuilder) (more : List ℕ)
      → (back : ReadsBack h.command h.transport h.source h.destination) → All IsPlain h.tlv_entries
      → length (payload_with h back.bytes 0) < 65536
      → let sum = c.crc32c (header_with h back.bytes 0) in
        let payload = payload_with h back.bytes sum in
        let n = length (payload_with h back.bytes 0) in
        (t : Tlvs) × (parse c (
            header_bytes
              (bit_or 0x20 (cmd_nibble h.command))
              (fam_proto h.transport)
              (n / 256)
              (n % 256)
              (payload ++ more))
          ≡ ok (info_with h t, 16 + length payload))
        × (t.raw ≡ h.tlv_entries ++ crc_entries h.add_crc32c sum)
        × View t
  written h more back p small =
      let vc = bit_or 0x20 (cmd_nibble h.command) in
      let fp = fam_proto h.transport in
      let sum = c.crc32c (header_with h back.bytes 0) in
      let es = h.tlv_entries in
      let all = es ++ crc_entries h.add_crc32c sum in
      let payload = payload_with h back.bytes sum in
      let n = length (payload_with h back.bytes 0) in
      let same = length-payload_with h back.bytes sum in
      let (t, parsed, raw, view) =
        parse_tlvs-wire all
          (All-append Fits es _ (plain-Fits es p) (crc_entries-Fits h.add_crc32c sum))
          (All-append IsAcceptable es _ (plain-IsAcceptable es p)
            (crc_entries-IsAcceptable h.add_crc32c sum)) in
      let tagged =
        tlvs_of-parsed h.command (length back.bytes) payload t
          (omega (arith, length-append back.bytes (wire all)))
          (ap parse_tlvs (drop-append back.bytes (wire all) (length back.bytes) refl) ∙ parsed) in
      let f : Frame c vc fp payload = record {
        cmd = h.command;
        addresses = _;
        tlvs = t;
        small = omega arith;
        version_two = back.version_two;
        commanded = back.commanded;
        addressed = back.read (wire all);
        tagged = tagged;
      } in
      (
        t,
        parse-Frame c vc fp (n / 256) (n % 256) payload more f (omega arith)
            (checks h.add_crc32c t es vc fp (n / 256) (n % 256) back.bytes more p raw view),
        raw,
        view,
      )

  pub parse-build :
      (h : HeaderBuilder) (bytes more : List ℕ)
      → h.version ≡ Version.v2
      → Endpoints h.command h.transport h.source h.destination
      → All IsPlain h.tlv_entries
      → build c h ≡ ok bytes
      → (sum : ℕ) × (t : Tlvs) × (parse c (bytes ++ more) ≡ ok (info_with h t, length bytes))
        × (t.raw ≡ h.tlv_entries ++ crc_entries h.add_crc32c sum)
        × View t
  unfolding build
  parse-build h bytes more v ends p built =
      let back = Endpoints-ReadsBack ends in
      let built_v2 : build_v2 c h ≡ ok bytes = sym (ap (λ w. build_version c w h) v) ∙ built in
      let fits = plain-Fits h.tlv_entries p in
      let small = built-small h back.bytes bytes fits back.encoded built_v2 in
      let same =
        ok-injective (sym built_v2 ∙ build_v2-shape c h back.bytes fits back.encoded small) in
      let vc = bit_or 0x20 (cmd_nibble h.command) in
      let fp = fam_proto h.transport in
      let n = length (payload_with h back.bytes 0) in
      let sum = c.crc32c (header_with h back.bytes 0) in
      let payload = payload_with h back.bytes sum in
      let (t, parsed, raw, view) = written h more back p small in
      (
        sum,
        t,
        subst (λ b. parse c (b ++ more) ≡ ok (info_with h t, length b)) (sym same)
            (parsed ∙ ap (λ n. ok (info_with h t, n)) (sixteen vc fp (n / 256) (n % 256) payload)),
        raw,
        view,
      )
