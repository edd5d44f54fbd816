-- ===== src/Parse/Header/Frame.antt =====
-- `parse` of a v2 header given by its parts.
use proxy_protocol_rs.Prelude.{
  ℕ, ◌+◌, ◌-◌, ◌/◌, ◌≤◌, ◌<◌, ◌≡◌, inl, inr, drop_all, refl, sym, ap, ◌∙◌, List, [], ◌∷◌, ◌++◌,
  length, drop, length-append, take-append, slice_lem, slice_from_lem, be16, bit_and, le→ltb, ltb,
  Bool-cases, ltb_false→le, ==_iff, ok, arith,
}
use proxy_protocol_rs.Types.{Command, local, proxy, Tlvs, tlvs_default}
use proxy_protocol_rs.Error.{ParseError}
use proxy_protocol_rs.Crc.{Crc32c}
use proxy_protocol_rs.Parse.Tlv.{parse_tlvs}
use proxy_protocol_rs.Parse.V2.{
  Addresses, command_of, addresses_of, tlvs_of_command, tlvs_of, check_crc, parse_v2_payload,
}
use proxy_protocol_rs.Parse.V2.Total.{fixed_header, behind_signature}
use proxy_protocol_rs.Parse.Header.{v2_signature, parse_binary, parse}
use proxy_protocol_rs.Parse.V2.Parsed.{info_of}

-- A v2 header: signature, command, family, length, and then the payload
abbrev pub header_bytes : ℕ → ℕ → ℕ → ℕ → List ℕ → List ℕ
header_bytes vc fp hi lo payload = v2_signature ++ (vc ∷ fp ∷ hi ∷ lo ∷ payload)

parse_tlvs_nil : parse_tlvs [] ≡ ok tlvs_default
unfolding parse_tlvs
parse_tlvs_nil = refl

-- TLVs that parse are what `parse_v2` takes, in both commands.
pub tlvs_of-parsed :
    (cmd : Command) (offset : ℕ) (payload : List ℕ) (t : Tlvs)
    → offset ≤ length payload
    → parse_tlvs (drop offset payload) ≡ ok t
    → tlvs_of cmd offset payload ≡ ok t
unfolding tlvs_of
tlvs_of-parsed cmd offset payload t h e = elim (Bool-cases (ltb offset (length payload))) [
  | inl some_left ↦
      rw (some_left, slice_from_lem {E = ParseError} payload offset h) (in_command cmd)
  | inr none_left ↦ rw none_left (
      sym parse_tlvs_nil
      ∙ (ap parse_tlvs (sym (drop_all payload offset (ltb_false→le _ _ none_left))) ∙ e))
]
  where
    in_command : (d : Command) → tlvs_of_command d (drop offset payload) ≡ ok t
    in_command local = unfold tlvs_of_command in rw e
    in_command proxy = unfold tlvs_of_command in e

-- The parts of a v2 header that `parse` accepts: its payload is `front ++ tags`, the addresses and
-- the TLVs.
pub record Frame (c : Crc32c) (vc fp : ℕ) (payload : List ℕ) : Type 0 where
  pub cmd : Command
  pub addresses : Addresses
  pub tlvs : Tlvs
  pub small : length payload < 65536
  pub version_two : vc / 16 ≡ 2
  pub commanded : command_of (bit_and vc 0x0f) ≡ ok cmd
  pub addressed : addresses_of cmd (fp / 16) (bit_and fp 0x0f) payload ≡ ok addresses
  pub tagged : tlvs_of cmd addresses.tlv_offset payload ≡ ok tlvs

module _ (c : Crc32c) where
  parse-v2 :
      (vc fp hi lo : ℕ) (rest : List ℕ)
      → parse c (header_bytes vc fp hi lo rest)
        ≡ behind_signature c vc fp hi lo (header_bytes vc fp hi lo rest)
  unfolding parse parse_binary
  parse-v2 vc fp hi lo rest =
      let buf = header_bytes vc fp hi lo rest in
      rw
        (
          le→ltb (length buf) 12 (omega arith),
          slice_lem {E = ParseError} buf 0 12 (omega arith) (omega arith),
        )
        (fixed_header c buf vc fp hi lo (omega arith) refl refl refl refl)

  -- `parse` of a header given by its parts, with `more` behind it
  pub parse-Frame :
      (vc fp hi lo : ℕ) (payload more : List ℕ) (f : Frame c vc fp payload)
      → be16 hi lo ≡ length payload
      → check_crc c f.tlvs.crc32c
          (header_bytes vc fp hi lo (payload ++ more))
          (16 + length payload)
          (16 + f.addresses.tlv_offset)
        ≡ ok tt
      → parse c (header_bytes vc fp hi lo (payload ++ more))
        ≡ ok (info_of f.cmd f.addresses f.tlvs, 16 + length payload)
  unfolding parse_v2_payload
  parse-Frame vc fp hi lo payload more f len checked =
      let n = 16 + length payload in
      let buf = header_bytes vc fp hi lo (payload ++ more) in
      let less : 16 + length payload - 16 ≡ length payload = omega arith in
      parse-v2 vc fp hi lo (payload ++ more)
      ∙ rw (
        (==_iff (vc / 16) 0x02).1 f.version_two,
        f.commanded,
        len,
        le→ltb (length buf) n (omega (arith, length-append payload more)),
        slice_lem {E = ParseError} buf 16 n (omega arith)
            (omega (arith, length-append payload more)),
        less,
        take-append payload more (length payload) refl,
        f.addressed,
        f.tagged,
        checked,
      )
