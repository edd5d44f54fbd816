-- ===== src/Vendor/Azure.antt =====
-- The TLV of Azure, in vendor/azure.rs, from the builder of builder.rs to the accessor.
use proxy_protocol_rs.Prelude.{
  ℕ, ◌>>=◌, slice_from_lem, ◌/◌, ◌%◌, ◌^◌, ◌<◌, ◌≡◌, ap, ◌∙◌, inl, inr, ◌==◌, Bool-cases, some,
  map_option, List, [], ◌∷◌, ◌++◌, length, le32, All, ok, arith,
}
use proxy_protocol_rs.Error.{TlvParseError}
use proxy_protocol_rs.Types.{Version, Tlvs}
use proxy_protocol_rs.Crc.{Crc32c}
use proxy_protocol_rs.Parse.Header.{parse}
use proxy_protocol_rs.Builder.Calls.{HeaderBuilder}
use proxy_protocol_rs.Builder.Header.{build}
use proxy_protocol_rs.Builder.Header.Shape.{crc_entries}
use proxy_protocol_rs.Builder.Header.Endpoints.{Endpoints}
use proxy_protocol_rs.Builder.Header.Plain.{IsPlain}
use proxy_protocol_rs.Builder.Header.RoundTrip.{info_with, parse-build}
use proxy_protocol_rs.Vendor.{link_id_of, find_raw, parse_azure_tlv, azure}

-- `u32::to_le_bytes`
abbrev pub to_le32 : ℕ → List ℕ
to_le32 n = (n % 256) ∷ (n / 256 % 256) ∷ (n / 65536 % 256) ∷ (n / 16777216 % 256) ∷ []

-- Behind the test for emptiness
pub parse_azure_tlv_lem :
    (k : ℕ) (v : List ℕ)
    → parse_azure_tlv (k ∷ v) ≡ (
        link_id_of k v >>= λ link_id.
        ok (record { private_endpoint_link_id = link_id; raw = (k, v) ∷ [] }))
unfolding parse_azure_tlv
parse_azure_tlv_lem k v = rw (slice_from_lem {E = TlvParseError} (k ∷ v) 1 (omega arith))

parse_azure_tlv-to_le32 :
    (n : ℕ)
    → n < 2 ^ 32
    → parse_azure_tlv (1 ∷ to_le32 n)
      ≡ ok (record { private_endpoint_link_id = some n; raw = (1, to_le32 n) ∷ [] })
parse_azure_tlv-to_le32 n h =
    let whole : le32 (n % 256) (n / 256 % 256) (n / 65536 % 256) (n / 16777216 % 256) ≡ n =
      omega arith in
    rw (parse_azure_tlv_lem 1 (to_le32 n), whole)

-- The first TLV of a type is the first one of a longer list.
find_raw-append :
    (k : ℕ) (es fs : List (ℕ × List ℕ)) (v : List ℕ)
    → find_raw k es ≡ some v
    → find_raw k (es ++ fs) ≡ some v
find_raw-append k [] fs v h = absurd (ground arith)
find_raw-append k ((t, w) ∷ es) fs v h = elim (Bool-cases (t == k)) [
  | inl e ↦ rw e (rw e at h)
  | inr e ↦ rw e (find_raw-append k es fs v (rw e at h))
]

-- If a v2 builder's addresses are those of its transport's family, each of its TLVs fits in 65535
-- bytes, is no checksum and has a value that the parser takes for its type, and the first one of
-- Azure's type is a link ID of 32 bits, little-endian behind the sub-type 1, then `parse` accepts
-- what `build` wrote whatever follows, and the accessor `azure` on its TLVs gives the ID.
pub azure-build :
    (c : Crc32c) (h : HeaderBuilder) (bytes more : List ℕ) (n : ℕ)
    → h.version ≡ Version.v2
    → Endpoints h.command h.transport h.source h.destination
    → All IsPlain h.tlv_entries
    → build c h ≡ ok bytes
    → n < 2 ^ 32
    → find_raw 0xee h.tlv_entries ≡ some (1 ∷ to_le32 n)
    → (t : Tlvs) × (parse c (bytes ++ more) ≡ ok (info_with h t, length bytes))
      × (azure t
          ≡ some (ok (record { private_endpoint_link_id = some n; raw = (1, to_le32 n) ∷ [] })))
unfolding azure
azure-build c h bytes more n v ends plain built lt found =
    let (sum, t, parsed, raw, view) = parse-build c h bytes more v ends plain built in
    let first : find_raw 0xee t.raw ≡ some (1 ∷ to_le32 n) =
      ap (find_raw 0xee) raw
      ∙ find_raw-append 0xee h.tlv_entries (crc_entries h.add_crc32c sum) (1 ∷ to_le32 n) found in
    (t, parsed, ap (map_option parse_azure_tlv) first ∙ ap some (parse_azure_tlv-to_le32 n lt))
