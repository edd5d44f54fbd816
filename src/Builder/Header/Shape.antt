-- ===== src/Builder/Header/Shape.antt =====
-- The bytes that `build_v2` of builder.rs writes: the fixed header, the addresses and the TLVs in the
-- wire form, with the checksum filled in.
use proxy_protocol_rs.Prelude.{
  ℕ, ◌+◌, ◌-◌, ◌/◌, ◌%◌, ◌<◌, ◌≡◌, refl, sym, ap, ◌∙◌, Bool, true, false, List, [], ◌∷◌, ◌++◌,
  append_assoc, append-nil, length, All, length-append, take-append, drop_all, to_be16, to_be32,
  bit_or, le→leb, ok, arith,
}
use proxy_protocol_rs.Crc.{Crc32c}
use proxy_protocol_rs.Parse.Wire.{Entry, wire, Fits, wire-append}
use proxy_protocol_rs.Parse.Header.Frame.{header_bytes}
use proxy_protocol_rs.Builder.Encode.{copy_at, encode_tlv, encode_tlvs}
use proxy_protocol_rs.Builder.Calls.{HeaderBuilder}
use proxy_protocol_rs.Builder.Header.{
  cmd_nibble, fam_proto, command_addresses, crc_placeholder, unfilled, fill_crc, build_v2,
}

pub encode_tlv-wire :
    (buf : List ℕ) (t : ℕ) (v : List ℕ)
    → length v < 65536
    → encode_tlv buf t v ≡ ok (buf ++ (t ∷ (length v / 256) ∷ (length v % 256) ∷ v))
unfolding encode_tlv
encode_tlv-wire buf t v h =
    let hi : length v % 65536 / 256 % 256 ≡ length v / 256 = omega arith in
    let lo : length v % 65536 % 256 ≡ length v % 256 = omega arith in
    rw (le→leb (length v) 65535 (omega arith), hi, lo)

-- The loop over the TLVs appends their wire form.
pub encode_tlvs-wire :
    (buf : List ℕ) (es : List Entry) → All Fits es → encode_tlvs buf es ≡ ok (buf ++ wire es)
unfolding encode_tlvs
encode_tlvs-wire buf [] f = rw append-nil
encode_tlvs-wire buf ((t, v) ∷ es) f =
    let head = t ∷ (length v / 256) ∷ (length v % 256) ∷ v in
    rw (encode_tlv-wire buf t v f.0, encode_tlvs-wire (buf ++ head) es f.1)
      (ap ok (append_assoc buf head (wire es)))

-- The TLVs that a builder writes, its checksum being `sum`
abbrev pub crc_entries : Bool → ℕ → List Entry
crc_entries true sum = (0x03, to_be32 sum) ∷ []
crc_entries false sum = []

placeholder-wire : (b : Bool) → crc_placeholder b ≡ wire (crc_entries b 0)
placeholder-wire true = refl
placeholder-wire false = refl

tail_shape :
    (addresses : List ℕ) (es : List Entry) (b : Bool)
    → (addresses ++ wire es) ++ crc_placeholder b ≡ addresses ++ wire (es ++ crc_entries b 0)
tail_shape addresses es b =
    append_assoc addresses (wire es) (crc_placeholder b)
    ∙ ap (λ q. addresses ++ q)
        (ap (λ q. wire es ++ q) (placeholder-wire b) ∙ sym (wire-append es (crc_entries b 0)))

pub unfilled-shape :
    (h : HeaderBuilder) (addresses : List ℕ)
    → All Fits h.tlv_entries
    → command_addresses h.command h.source h.destination ≡ ok addresses
    → unfilled h
      ≡ ok (
          header_bytes
            (bit_or 0x20 (cmd_nibble h.command))
            (fam_proto h.transport)
            0
            0
            (addresses ++ wire (h.tlv_entries ++ crc_entries h.add_crc32c 0)))
unfolding unfilled
unfilled-shape h addresses f e =
    rw (e, encode_tlvs-wire _ h.tlv_entries f)
      (ap
        (λ q. ok (header_bytes (bit_or 0x20 (cmd_nibble h.command)) (fam_proto h.transport) 0 0 q))
        (tail_shape addresses h.tlv_entries h.add_crc32c))

copy_at_end :
    (front old new : List ℕ)
    → length new ≡ length old
    → copy_at (front ++ old) (length front) new ≡ ok (front ++ new)
copy_at_end front old new h =
    let n = length front + length new in
    let whole : length (front ++ old) ≡ n = omega (arith, length-append front old) in
    rw (
      le→leb n (length (front ++ old)) (omega arith),
      take-append front old (length front) refl,
      drop_all (front ++ old) n (omega arith),
      append-nil new,
    )

-- The checksum's place is the last four bytes.
fill_place :
    (vc fp hi lo : ℕ) (addresses : List ℕ) (es : List Entry) (sum : ℕ)
    → header_bytes vc fp hi lo (addresses ++ wire (es ++ crc_entries true sum))
      ≡ header_bytes vc fp hi lo (addresses ++ (wire es ++ (3 ∷ 0 ∷ 4 ∷ []))) ++ to_be32 sum
fill_place vc fp hi lo addresses es sum = ap (header_bytes vc fp hi lo) (
    ap (λ q. addresses ++ q)
      (wire-append es (crc_entries true sum)
        ∙ sym (append_assoc (wire es) (3 ∷ 0 ∷ 4 ∷ []) (to_be32 sum)))
    ∙ sym (append_assoc addresses (wire es ++ (3 ∷ 0 ∷ 4 ∷ [])) (to_be32 sum)))

-- The payload, with `sum` in the place of the checksum
abbrev pub payload_with : HeaderBuilder → List ℕ → ℕ → List ℕ
payload_with h addresses sum = addresses ++ wire (h.tlv_entries ++ crc_entries h.add_crc32c sum)

-- The header, with `sum` in the place of the checksum
abbrev pub header_with : HeaderBuilder → List ℕ → ℕ → List ℕ
header_with h addresses sum =
    let payload = payload_with h addresses sum in
    header_bytes (bit_or 0x20 (cmd_nibble h.command)) (fam_proto h.transport) (length payload / 256)
      (length payload % 256) payload

module _ (c : Crc32c) where
  fill_crc-shape :
      (b : Bool) (vc fp hi lo : ℕ) (addresses : List ℕ) (es : List Entry)
      → let zeroed = header_bytes vc fp hi lo (addresses ++ wire (es ++ crc_entries b 0)) in
        fill_crc c b zeroed
        ≡ ok (header_bytes vc fp hi lo (addresses ++ wire (es ++ crc_entries b (c.crc32c zeroed))))
  unfolding fill_crc
  fill_crc-shape false vc fp hi lo addresses es = refl
  fill_crc-shape true vc fp hi lo addresses es =
      let front = header_bytes vc fp hi lo (addresses ++ (wire es ++ (3 ∷ 0 ∷ 4 ∷ []))) in
      let zeroed = header_bytes vc fp hi lo (addresses ++ wire (es ++ crc_entries true 0)) in
      let sum = c.crc32c zeroed in
      let place : zeroed ≡ front ++ (0 ∷ 0 ∷ 0 ∷ 0 ∷ []) = fill_place vc fp hi lo addresses es 0 in
      let at : length zeroed - 4 ≡ length front =
        omega (arith, ap length place, length-append front (0 ∷ 0 ∷ 0 ∷ 0 ∷ [])) in
      ap (λ q. copy_at zeroed q (to_be32 sum)) at
      ∙ (ap (λ q. copy_at q (length front) (to_be32 sum)) place
          ∙ (copy_at_end front (0 ∷ 0 ∷ 0 ∷ 0 ∷ []) (to_be32 sum) refl
              ∙ ap ok (sym (fill_place vc fp hi lo addresses es sum))))

  copy_length :
      (vc fp : ℕ) (payload : List ℕ)
      → length payload < 65536
      → copy_at (header_bytes vc fp 0 0 payload) 14 (to_be16 (length payload % 65536))
        ≡ ok (header_bytes vc fp (length payload / 256) (length payload % 256) payload)
  copy_length vc fp payload h =
      let hi : length payload % 65536 / 256 % 256 ≡ length payload / 256 = omega arith in
      let lo : length payload % 65536 % 256 ≡ length payload % 256 = omega arith in
      rw (le→leb 16 (length (header_bytes vc fp 0 0 payload)) (omega arith), hi, lo)

  -- `build_v2` writes the header with the checksum of the header whose checksum is 0.
  pub build_v2-shape :
      (h : HeaderBuilder) (addresses : List ℕ)
      → All Fits h.tlv_entries
      → command_addresses h.command h.source h.destination ≡ ok addresses
      → length (payload_with h addresses 0) < 65536
      → build_v2 c h
        ≡ ok (
            header_bytes
              (bit_or 0x20 (cmd_nibble h.command))
              (fam_proto h.transport)
              (length (payload_with h addresses 0) / 256)
              (length (payload_with h addresses 0) % 256)
              (payload_with h addresses (c.crc32c (header_with h addresses 0))))
  unfolding build_v2
  build_v2-shape h addresses f e small =
      let payload = payload_with h addresses 0 in
      let vc = bit_or 0x20 (cmd_nibble h.command) in
      let fp = fam_proto h.transport in
      let len : length (header_bytes vc fp 0 0 payload) - 16 ≡ length payload = omega arith in
      rw
        (
          unfilled-shape h addresses f e,
          len,
          le→leb (length payload) 65535 (omega arith),
          copy_length vc fp payload small,
        )
        (fill_crc-shape h.add_crc32c vc fp (length payload / 256) (length payload % 256) addresses
          h.tlv_entries)
