-- ===== src/Parse/V2/Total.antt =====
-- `parse_v2` of parse/v2.rs on any bytes, and on more of them.
use proxy_protocol_rs.Prelude.{
  ℕ, ◌+◌, ◌-◌, ◌/◌, ◌≤◌, ◌<◌, ◌≡◌, refl, sym, ◌∙◌, inl, inr, List, ◌++◌, length, take, drop,
  slice_lem, slice-append, index, index-append_le, length-append, lt→ltb, ltb→lt, slice_from_lem,
  index_lem, length-take, length-drop, be16, bit_and, Bool-cases, ltb, le→ltb, ltb_false→le, ◌==◌,
  not, true, Outcome, ok, err, Returns, Returns->>=, Returns->>, Returns-cases, ◌≢◌, ◌>>=◌, ◌>>◌,
  fail_if, Option, none, some, arith,
}
use proxy_protocol_rs.Types.{Command, local, proxy, ProxyInfo}
use proxy_protocol_rs.Error.{ParseError, incomplete, invalid, unsupported_version}
use proxy_protocol_rs.Crc.{Crc32c}
use proxy_protocol_rs.Parse.Tlv.Loop.{parse_tlvs-Returns}
use proxy_protocol_rs.Parse.V2.{
  command_of, tlvs_of_command, tlvs_of, compute_crc32c, check_crc, parse_v2_payload, parse_v2,
}
use proxy_protocol_rs.Parse.V2.Inside.{addresses_of-Inside, Inside-Returns, Inside-ok}
use proxy_protocol_rs.Parse.V2.Crc.{check_crc-Returns}

tlvs_of_command-Returns : (cmd : Command) (bytes : List ℕ) → Returns (tlvs_of_command cmd bytes)
unfolding tlvs_of_command
tlvs_of_command-Returns local bytes = ground (arith, parse_tlvs-Returns bytes)
tlvs_of_command-Returns proxy bytes = parse_tlvs-Returns bytes

tlvs_of-Returns :
    (cmd : Command) (offset : ℕ) (payload : List ℕ)
    → offset ≤ length payload
    → Returns (tlvs_of cmd offset payload)
unfolding tlvs_of
tlvs_of-Returns cmd offset payload h =
    rw (slice_from_lem {E = ParseError} payload offset h)
      (ground (arith, tlvs_of_command-Returns cmd (drop offset payload)))

command_of-Returns : (n : ℕ) → Returns (command_of n)
unfolding command_of
command_of-Returns n = ground arith

module _ (c : Crc32c) where
  parse_v2_payload-Returns :
      (cmd : Command) (fp hi lo : ℕ) (buf : List ℕ) → Returns (parse_v2_payload c cmd fp hi lo buf)
  unfolding parse_v2_payload
  parse_v2_payload-Returns cmd fp hi lo buf =
      elim (Bool-cases (ltb (length buf) (16 + be16 hi lo))) [
        | inl short ↦ rw short tt
        | inr long ↦
            let n = 16 + be16 hi lo in
            let fits : n ≤ length buf = ltb_false→le _ _ long in
            let payload = take (n - 16) (drop 16 buf) in
            let len : length payload ≡ n - 16 =
              omega (arith, length-take (n - 16) (drop 16 buf), length-drop 16 buf) in
            let inside = addresses_of-Inside cmd (fp / 16) (bit_and fp 0x0f) payload in
            rw (long, slice_lem {E = ParseError} buf 16 n (omega arith) fits)
              (Returns->>= _ _ (Inside-Returns payload _ inside) (λ a e.
                let at : a.tlv_offset ≤ length payload = Inside-ok payload inside e in
                Returns->>= _ _ (tlvs_of-Returns cmd a.tlv_offset payload at) (λ t _.
                  Returns->> _ _
                    (check_crc-Returns c t.crc32c buf n (16 + a.tlv_offset) fits (omega arith))
                    tt)))
      ]

  -- `parse_v2` behind the check of the buffer's length, with the four bytes that it reads
  abbrev pub behind_signature : ℕ → ℕ → ℕ → ℕ → List ℕ → Outcome (ProxyInfo × ℕ) ParseError
  behind_signature vc fp hi lo buf = do
    fail_if (not (vc / 16 == 0x02)) (invalid (unsupported_version (vc / 16)))
    command ← command_of (bit_and vc 0x0f)
    parse_v2_payload c command fp hi lo buf

  pub record FixedHeader (buf : List ℕ) : Type 0 where
    pub ver_cmd : ℕ
    pub fam_proto : ℕ
    pub hi : ℕ
    pub lo : ℕ
    pub at12 : index {E = ParseError} buf 12 ≡ ok ver_cmd
    pub at13 : index {E = ParseError} buf 13 ≡ ok fam_proto
    pub at14 : index {E = ParseError} buf 14 ≡ ok hi
    pub at15 : index {E = ParseError} buf 15 ≡ ok lo
    pub parsed : parse_v2 c buf ≡ behind_signature ver_cmd fam_proto hi lo buf

  pub fixed_header :
      (buf : List ℕ) (vc fp hi lo : ℕ)
      → 16 ≤ length buf
      → index {E = ParseError} buf 12 ≡ ok vc
      → index {E = ParseError} buf 13 ≡ ok fp
      → index {E = ParseError} buf 14 ≡ ok hi
      → index {E = ParseError} buf 15 ≡ ok lo
      → parse_v2 c buf ≡ behind_signature vc fp hi lo buf
  unfolding parse_v2
  fixed_header buf vc fp hi lo h i0 i1 i2 i3 = rw (le→ltb (length buf) 16 h, i0, i1, i2, i3)

  pub fixed_header_of : (buf : List ℕ) → 16 ≤ length buf → FixedHeader buf
  fixed_header_of buf h =
      let (vc, i0) = index_lem {E = ParseError} buf 12 (omega arith) in
      let (fp, i1) = index_lem {E = ParseError} buf 13 (omega arith) in
      let (hi, i2) = index_lem {E = ParseError} buf 14 (omega arith) in
      let (lo, i3) = index_lem {E = ParseError} buf 15 (omega arith) in
      record {
        ver_cmd = vc;
        fam_proto = fp;
        hi = hi;
        lo = lo;
        at12 = i0;
        at13 = i1;
        at14 = i2;
        at15 = i3;
        parsed = fixed_header buf vc fp hi lo h i0 i1 i2 i3;
      }

  pub parse_v2_short : (buf : List ℕ) → length buf < 16 → parse_v2 c buf ≡ err incomplete
  unfolding parse_v2
  parse_v2_short buf h = rw (lt→ltb (length buf) 16 h)

  pub parse_v2-Returns : (buf : List ℕ) → Returns (parse_v2 c buf)
  parse_v2-Returns buf = elim (Bool-cases (ltb (length buf) 16)) [
    | inl short ↦ rw (parse_v2_short buf (ltb→lt _ _ short)) tt
    | inr long ↦
        let f = fixed_header_of buf (ltb_false→le _ _ long) in
        rw f.parsed (
          Returns->> _ _ (ground arith) (
            Returns->>= _ _ (command_of-Returns (bit_and f.ver_cmd 0x0f))
              (λ cmd _. parse_v2_payload-Returns cmd f.fam_proto f.hi f.lo buf)))
  ]

  check_crc-append :
      (expected : Option ℕ) (buf more : List ℕ) (n start : ℕ)
      → n ≤ length buf
      → check_crc c expected (buf ++ more) n start ≡ check_crc c expected buf n start
  unfolding check_crc compute_crc32c
  check_crc-append none buf more n start h = refl
  check_crc-append (some x) buf more n start h =
      rw (slice-append {E = ParseError} buf more 0 n (omega arith) h)

  -- The header's bytes decide the rest: what stands behind them changes nothing.
  pub parse_v2_payload-append :
      (cmd : Command) (fp hi lo : ℕ) (buf more : List ℕ)
      → 16 + be16 hi lo ≤ length buf
      → parse_v2_payload c cmd fp hi lo (buf ++ more) ≡ parse_v2_payload c cmd fp hi lo buf
  unfolding parse_v2_payload
  parse_v2_payload-append cmd fp hi lo buf more h =
      rw
        (
          le→ltb (length (buf ++ more)) (16 + be16 hi lo) (omega (arith, length-append buf more)),
          le→ltb (length buf) (16 + be16 hi lo) h,
          slice-append {E = ParseError} buf more 16 (16 + be16 hi lo) (omega arith) h,
        )
        (simp (λ (x : Option ℕ) (s : ℕ). check_crc-append x buf more (16 + be16 hi lo) s h))

  parse_v2_payload_short :
      (cmd : Command) (fp hi lo : ℕ) (buf : List ℕ)
      → ltb (length buf) (16 + be16 hi lo) ≡ true
      → parse_v2_payload c cmd fp hi lo buf ≡ err incomplete
  unfolding parse_v2_payload
  parse_v2_payload_short cmd fp hi lo buf short = rw short

  pub behind_signature-append :
      (vc fp hi lo : ℕ) (buf more : List ℕ)
      → behind_signature vc fp hi lo buf ≢ err incomplete
      → behind_signature vc fp hi lo (buf ++ more) ≡ behind_signature vc fp hi lo buf
  behind_signature-append vc fp hi lo buf more h =
      elim (Bool-cases (ltb (length buf) (16 + be16 hi lo))) [
        | inl short ↦ elim (Bool-cases (vc / 16 == 0x02)) [
          | inr other ↦ rw other
          | inl two ↦ elim (Returns-cases (command_of (bit_and vc 0x0f)) (command_of-Returns _)) [
            | inr (e, q) ↦ rw (two, q)
            | inl (cmd, q) ↦
                absurd (h (rw (two, q) (parse_v2_payload_short cmd fp hi lo buf short)))
          ]
        ]
        | inr long ↦ simp (λ (cmd : Command).
            parse_v2_payload-append cmd fp hi lo buf more (ltb_false→le _ _ long))
      ]

  -- Once `parse_v2` does not ask for more data, more data does not change its answer.
  pub parse_v2-append :
      (buf more : List ℕ)
      → parse_v2 c buf ≢ err incomplete
      → parse_v2 c (buf ++ more) ≡ parse_v2 c buf
  parse_v2-append buf more h = elim (Bool-cases (ltb (length buf) 16)) [
    | inl short ↦ absurd (h (parse_v2_short buf (ltb→lt _ _ short)))
    | inr long ↦
        let le : 16 ≤ length buf = ltb_false→le _ _ long in
        let f = fixed_header_of buf le in
        fixed_header (buf ++ more) f.ver_cmd f.fam_proto f.hi f.lo
          (omega (arith, length-append buf more))
          (index-append_le buf more 12 (omega arith) ∙ f.at12)
          (index-append_le buf more 13 (omega arith) ∙ f.at13)
          (index-append_le buf more 14 (omega arith) ∙ f.at14)
          (index-append_le buf more 15 (omega arith) ∙ f.at15)
        ∙ (behind_signature-append f.ver_cmd f.fam_proto f.hi f.lo buf more (λ e. h (f.parsed ∙ e))
            ∙ sym f.parsed)
  ]
