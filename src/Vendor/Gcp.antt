-- ===== src/Vendor/Gcp.antt =====
-- The TLV of GCP, in vendor/mod.rs.
use proxy_protocol_rs.Prelude.{
  ℕ, ◌+◌, ◌*◌, ◌/◌, ◌%◌, ◌^◌, ◌<◌, ◌≡◌, List, ◌++◌, be32, to_be32, ok, arith,
}
use proxy_protocol_rs.Vendor.{parse_gcp_tlv}

-- `u64::to_be_bytes`
abbrev pub to_be64 : ℕ → List ℕ
to_be64 n = to_be32 (n / 4294967296) ++ to_be32 (n % 4294967296)

-- The connection ID of GCP is the value read as one number of eight bytes: `parse_gcp_tlv` reads back
-- every number of 64 bits from its bytes.
pub parse_gcp_tlv-to_be64 :
    (n : ℕ) → n < 2 ^ 64 → parse_gcp_tlv (to_be64 n) ≡ ok (record { psc_connection_id = n })
unfolding parse_gcp_tlv
parse_gcp_tlv-to_be64 n h =
    let hi = n / 4294967296 in
    let lo = n % 4294967296 in
    let high : be32 (hi / 16777216 % 256) (hi / 65536 % 256) (hi / 256 % 256) (hi % 256) ≡ hi =
      omega arith in
    let low : be32 (lo / 16777216 % 256) (lo / 65536 % 256) (lo / 256 % 256) (lo % 256) ≡ lo =
      omega arith in
    let whole : hi * 4294967296 + lo ≡ n = omega arith in rw (high, low, whole)
